-- ===== src/Tests/Coding.antt =====
-- Lists of texts in one text, for the examples' encodings: each character behind an `x`, and a
-- point behind each text.
use Prim.Native.Char.{Char, code}
use Prim.Native.String.{String}
use text.Mathlib.TextLemmas.{cons-append, nil-append}
use remote_exec.Base.{
  ◌≡◌, refl, ap, ◌∙◌, Text, ◌<>◌, Bool, true, false, List, [], ◌∷◌, eqb, if◌then◌else◌,
}

unfoldable pub code_text : Text → Text
code_text String.[] = "."
code_text (String.◌∷◌ c s) = String.◌∷◌ "x" (String.◌∷◌ c (code_text s))

unfoldable pub join_all : List Text → Text
join_all [] = ""
join_all (t ∷ ts) = code_text t <> join_all ts

abbrev push : Char → List Text → List Text
push c [] = String.◌∷◌ c "" ∷ []
push c (t ∷ ts) = String.◌∷◌ c t ∷ ts

-- `true`: the next character is a text's.
unfoldable pub split : Bool → Text → List Text
split b String.[] = []
split false (String.◌∷◌ c s) = if eqb (code c) b'x' then split true s else ("" ∷ split false s)
split true (String.◌∷◌ c s) = push c (split false s)

split_point : (rest : Text) → split false ("." <> rest) ≡ "" ∷ split false rest
unfolding split
split_point rest = rw (cons-append "." "" rest, nil-append rest) refl

split_x :
    (c : Char) (s : Text) → split false (String.◌∷◌ "x" (String.◌∷◌ c s)) ≡ push c (split false s)
unfolding split
split_x c s = refl

pub split-code_text : (t rest : Text) → split false (code_text t <> rest) ≡ t ∷ split false rest
unfolding code_text
split-code_text String.[] rest = split_point rest
split-code_text (String.◌∷◌ c s) rest =
    rw
      (
        cons-append "x" (String.◌∷◌ c (code_text s)) rest,
        cons-append c (code_text s) rest,
        split_x c (code_text s <> rest),
        split-code_text s rest,
      )
      refl

pub split-join_all : (ts : List Text) → split false (join_all ts) ≡ ts
unfolding join_all
split-join_all [] = unfold split in refl
split-join_all (t ∷ ts) =
    split-code_text t (join_all ts) ∙ ap (λ (l : List Text). t ∷ l) (split-join_all ts)
