-- ===== src/Agentd/Manage/Settings.antt =====
-- The service runs with the settings that it was installed with.
use mathlib.Core.Logic.{if_pos, if_neg}
use text.Mathlib.TextLemmas.{append-ne-nil_of_right_ne-nil}
use remote_exec.Base.{
  ne_literal, ◌==◌, if◌then◌else◌, ◌≡◌, ◌≢◌, refl, Text, List, [], ◌∷◌, text_dec,
}
use remote_exec.Io.{Result, ok, err}
use remote_exec.Agentd.{in_dir}
use remote_exec.Agentd.Manage.{Flags, config_of, default_data_dir, data_dir_of, listen_of}

-- github.com/spf13/pflag on the arguments that the service manager passes: each long flag takes the
-- argument behind it.
pub record ReadsFlags (parse : Result Text → List Text → Flags) : Type 0 where
  pub two_flags :
      (base : Result Text) (d l : Text)
      → parse base ("service" ∷ "run" ∷ "--data-dir" ∷ d ∷ "--listen" ∷ l ∷ [])
        ≡ record { base = base; data_dir = d; listen = l }

in_dir-ne_empty : (base : Text) → in_dir base "rexec-agentd" ≢ ""
in_dir-ne_empty base = append-ne-nil_of_right_ne-nil base (ne_literal "/rexec-agentd" "" refl)

-- A flag, or its default.
flag_or-ne_empty : (v default_ : Text) → default_ ≢ "" → (if v == "" then default_ else v) ≢ ""
flag_or-ne_empty v default_ ne = elim (text_dec v "") [
  | yes e ↦ rw (if_pos _ e) ne
  | no h ↦ rw (if_neg _ h) h
]

default_ne_empty : (base : Result Text) → default_data_dir base ≢ ""
unfolding default_data_dir
default_ne_empty (err e) = ne_literal "rexec-agentd-data" "" refl
default_ne_empty (ok base) = elim (text_dec base "") [
  | yes e ↦ rw (if_pos _ e) (ne_literal "rexec-agentd-data" "" refl)
  | no h ↦ rw (if_neg _ h) (in_dir-ne_empty base)
]

data_dir_of-set : (f : Flags) → f.data_dir ≢ "" → data_dir_of f ≡ f.data_dir
unfolding data_dir_of
data_dir_of-set f h = rw (if_neg _ h) refl

listen_of-set : (f : Flags) → f.listen ≢ "" → listen_of f ≡ f.listen
unfolding listen_of
listen_of-set f h = rw (if_neg _ h) refl

data_dir_of-ne_empty : (f : Flags) → data_dir_of f ≢ ""
unfolding data_dir_of
data_dir_of-ne_empty f =
    flag_or-ne_empty f.data_dir (default_data_dir f.base) (default_ne_empty f.base)

listen_of-ne_empty : (f : Flags) → listen_of f ≢ ""
unfolding listen_of
listen_of-ne_empty f =
    flag_or-ne_empty f.listen "127.0.0.1:50000" (ne_literal "127.0.0.1:50000" "" refl)

-- The daemon that the service manager starts with the installed arguments, as whichever user, has
-- the data directory and the address of the command that installed it, defaults included.
pub installed_settings :
    (parse : Result Text → List Text → Flags)
    → ReadsFlags parse
    → (f : Flags) (base : Result Text)
    → let started = parse base (config_of (data_dir_of f) (listen_of f)).arguments in
      (data_dir_of started ≡ data_dir_of f) × (listen_of started ≡ listen_of f)
installed_settings parse reads f base = rw (reads.two_flags base (data_dir_of f) (listen_of f)) (
  data_dir_of-set (record { base = base; data_dir = data_dir_of f; listen = listen_of f })
      (data_dir_of-ne_empty f),
  listen_of-set (record { base = base; data_dir = data_dir_of f; listen = listen_of f })
      (listen_of-ne_empty f),
)
