-- ===== src/Agentd/Stored.antt =====
-- The files of the data directory: which call writes which.
use text.Mathlib.TextLemmas.{append_cancel_left}
use remote_exec.Base.{◌≡◌, ◌≢◌, inl, inr, Text, ◌<>◌, some, [], ◌∷◌, arith, Option-cases}
use remote_exec.Base.Dict.{insert, lookup, lookup-insert_self, lookup-insert_ne}
use remote_exec.Error.{wrap}
use remote_exec.Io.{ok, Result-cases, on_error}
use remote_exec.Io.World.{World, Env, step}
use remote_exec.Io.Calls.{write_file}
use remote_exec.Pki.{Ca, new_csr}
use remote_exec.Pki.Primitives.{Crypto}
use remote_exec.Pki.Leaves.{files-sign}
use remote_exec.Agentd.{write_files, mint_server_cert, server_request, in_dir}

-- Two names in one directory.
pub in_dir-ne : (dir a b : Text) → "/" <> a ≢ "/" <> b → in_dir dir a ≢ in_dir dir b
in_dir-ne dir a b ne e = ne (append_cancel_left dir ("/" <> a) ("/" <> b) e)

module _ (env : Env) where
  write_file_ok :
      (path contents prefix : Text) (w : World)
      → (on_error (wrap prefix) (write_file env path contents) w).0 ≡ ok tt
      → (on_error (wrap prefix) (write_file env path contents) w).1.files
        ≡ insert path contents w.files
  unfolding write_file
  write_file_ok path contents prefix w h = elim (Option-cases (env.fault w.calls)) [
    | inl quiet ↦ ground arith
    | inr (f, fails) ↦ absurd (ground arith)
  ]

  -- Two different files that were written hold what was written, and every other what it held.
  pub write_files_two :
      (a b s t : Text) (w w' : World)
      → a ≢ b
      → write_files env ((a, s) ∷ (b, t) ∷ []) w ≡ (ok tt, w')
      → (lookup a w'.files ≡ some s)
        × (lookup b w'.files ≡ some t)
        × ((p : Text) → p ≢ a → p ≢ b → lookup p w'.files ≡ lookup p w.files)
  unfolding write_files
  write_files_two a b s t w w' ne h =
      let first = on_error (wrap ("write " <> a <> ": ")) (write_file env a s) w in
      elim (Result-cases first.0) [
        | inr (e, bad) ↦ absurd (ground arith)
        | inl (done, good) ↦
            let second = on_error (wrap ("write " <> b <> ": ")) (write_file env b t) first.1 in
            elim (Result-cases second.0) [
              | inr (e, bad) ↦ absurd (ground arith)
              | inl (done', good') ↦
                  let one = write_file_ok a s ("write " <> a <> ": ") w good in
                  let two = write_file_ok b t ("write " <> b <> ": ") first.1 good' in
                  (
                    ground (
                      arith,
                      one,
                      two,
                      lookup-insert_ne a b t (insert a s w.files) ne,
                      lookup-insert_self a s w.files,
                    ),
                    ground (arith, one, two, lookup-insert_self b t (insert a s w.files)),
                    λ p na nb. ground (
                      arith,
                      one,
                      two,
                      lookup-insert_ne p b t (insert a s w.files) nb,
                      lookup-insert_ne p a s w.files na,
                    ),
                  )
            ]
      ]

module _ (env : Env) (x : Crypto) where
  pub files-new_csr : (name : Text) (w : World) → (new_csr env x name w).1.files ≡ w.files
  unfolding new_csr
  files-new_csr name w = ground arith

  pub files-mint_server_cert :
      (ca : Ca x) (w : World) → (mint_server_cert env x ca w).1.files ≡ w.files
  unfolding mint_server_cert
  files-mint_server_cert ca w = elim (Result-cases (new_csr env x "rexec-agentd" w).0) [
    | inr (e, bad) ↦ ground (arith, files-new_csr "rexec-agentd" w)
    | inl (pair, made) ↦
        let v = (new_csr env x "rexec-agentd" w).1 in
        ground (
          arith,
          files-new_csr "rexec-agentd" w,
          files-sign env x ca (server_request env x pair.0 (env.hostname v.calls)) (step v),
        )
  ]
