-- ===== src/Token/Sharing/Issued.antt =====
-- Callers that exclude one another lose no token: what was listed or issued stays in the file until
-- somebody redeems it.
use remote_exec.Base.{
  ℕ, ◌≡◌, ◌≢◌, refl, ap, sym, ◌∙◌, ◌⊎◌, inl, inr, Text, ◌<>◌, true, false, Bool-cases,
}
use remote_exec.Base.Int.{ℤ}
use remote_exec.Base.Dict.{Dict, lookup}
use remote_exec.Base.Family.{update, update_cases}
use remote_exec.Io.{ok}
use remote_exec.Io.World.{World, Env}
use remote_exec.Token.{Codec, IsFaithful}
use remote_exec.Token.Sharing.{
  Op, issuing, Pc, outside, waiting, entered, loaded, storing, renaming, leaving, finished,
  critical, advance, Lock, System, Reach, started,
}
use remote_exec.Token.Sharing.Local.{won}
use remote_exec.Token.Sharing.Access.{files-mkdir_all, files-attempt}
use remote_exec.Token.Sharing.Exclusive.{IsExclusive, Reach-kept}
use remote_exec.Token.Sharing.Listed.{FailsLate, Lists, Lists-same, Due-same, Issues, Keeps, Known}
use remote_exec.Token.Sharing.Keeping.{advance-Fine}

module _ (env : Env) (json : Codec) (law : IsFaithful json) (path token role : Text)
    (op : ℕ → Op) where
  -- What the callers rely on together; `w0` is the world that they started in.
  record Callers (w0 : World) (w : World) (pc : ℕ → Pc) : Type 0 where
    known : (i : ℕ) → Known json path token role (op i) (pc i) w
    stored :
        (i : ℕ)
        → won (pc i) ≡ true
        → Issues json path token role (op i)
        → Lists json path token role w
    stays : Lists json path token role w0 → Lists json path token role w

  -- Outside the critical section nothing is written.
  files-outside :
      (o : Op) (p : Pc) (w : World)
      → critical p ≡ false
      → (advance env json path o p w).1.files ≡ w.files
  unfolding advance
  files-outside o outside w h = files-mkdir_all env json law path token w
  files-outside o waiting w h = files-attempt env json law path token w
  files-outside o entered w h = absurd (cc)
  files-outside o (loaded m) w h = absurd (cc)
  files-outside o (storing r t) w h = absurd (cc)
  files-outside o (renaming r t) w h = absurd (cc)
  files-outside o (leaving r) w h = absurd (cc)
  files-outside o (finished r) w h = refl

  Known-files :
      (o : Op) (p : Pc) (w w' : World)
      → w'.files ≡ w.files
      → Known json path token role o p w
      → Known json path token role o p w'
  Known-files o outside w w' same h = tt
  Known-files o waiting w w' same h = tt
  Known-files o entered w w' same h = tt
  Known-files o (loaded m) w w' same h = λ listed. h (
      Lists-same json path token role w' w (ap (λ (f : Dict Text). lookup path f) (sym same))
        listed)
  Known-files o (storing r t) w w' same h = λ due.
      h (Due-same json path token role o w w' (ap (λ (f : Dict Text). lookup path f) same) due)
  Known-files o (renaming r t) w w' same h = (
    λ due.
        h.0 (Due-same json path token role o w w' (ap (λ (f : Dict Text). lookup path f) same) due),
    ap (λ (f : Dict Text). lookup (path <> ".tmp") f) same ∙ h.1,
  )
  Known-files o (leaving r) w w' same h = tt
  Known-files o (finished r) w w' same h = tt

  Known-outside :
      (o : Op) (p : Pc) (w : World) → critical p ≡ false → Known json path token role o p w
  Known-outside o outside w h = tt
  Known-outside o waiting w h = tt
  Known-outside o entered w h = tt
  Known-outside o (loaded m) w h = absurd (cc)
  Known-outside o (storing r t) w h = absurd (cc)
  Known-outside o (renaming r t) w h = absurd (cc)
  Known-outside o (leaving r) w h = tt
  Known-outside o (finished r) w h = tt

  module _ (late : FailsLate env) (keeps : (i : ℕ) → Keeps json path token role (op i)) where
    advance-Callers :
        (w0 w : World) (pc : ℕ → Pc) (i : ℕ)
        → ((j : ℕ) → j ≢ i → critical (pc i) ≡ true → critical (pc j) ≡ false)
        → Callers w0 w pc
        → let (p, w') = advance env json path (op i) (pc i) w in Callers w0 w' (update pc i p)
    advance-Callers w0 w pc i apart inv =
        let (p, w') = advance env json path (op i) (pc i) w in
        let fine =
          advance-Fine env json law path token role late (op i) (keeps i) (pc i) w (inv.known i) in
        record {
          known = λ j. elim (update_cases pc i j p) [
            | inl (e, same) ↦ rw (same, e) fine.known
            | inr (h, same) ↦ rw same (elim (Bool-cases (critical (pc i))) [
              | inl inside ↦ Known-outside (op j) (pc j) w' (apart j h inside)
              | inr out ↦
                  Known-files (op j) (pc j) w w' (files-outside (op i) (pc i) w out) (inv.known j)
            ])
          ];
          stored = λ j win issues. elim (update_cases pc i j p) [
            | inl (e, same) ↦ elim (Bool-cases (won (pc i))) [
              | inl before ↦ fine.stays (inv.stored i before (rw (← e) issues))
              | inr lost ↦ fine.wins (ap won (sym same) ∙ win) lost (rw (← e) issues)
            ]
            | inr (h, same) ↦ fine.stays (inv.stored j (ap won (sym same) ∙ win) issues)
          ];
          stays = λ listed. fine.stays (inv.stays listed);
        }

  -- Any number of callers of `Consume` and `Issue`, in any interleaving of their accesses, of which
  -- nobody redeems this token or issues it with another role. If the lock excludes them from one
  -- another, an encoded map reads back as the same map and is not empty, and a call that fails has
  -- returned or left some data first: if the file listed the token with its role at the start, or an
  -- `Issue` of it has returned, the file lists it with its role.
  pub token_kept :
      (k : Lock) (w : World) (l : k.State) (s : System env json path k op)
      → FailsLate env
      → IsExclusive k
      → ((i : ℕ) → Keeps json path token role (op i))
      → Reach env json path k op (started env json path k op w l) s
      → Lists json path token role w
        ⊎ (i : ℕ) × (ttl : ℤ) × (op i ≡ issuing token role ttl) × (s.pc i ≡ finished (ok token))
      → Lists json path token role s.world
  token_kept k w l s late excludes keeps r due =
      let first : Callers w w (λ i. outside) = record {
        known = λ i. tt;
        stored = λ i e. cc;
        stays = λ listed. listed;
      } in
      let inv =
        Reach-kept env json path k op excludes w l (Callers w) first
          (λ v pc i apart h. advance-Callers late keeps w v pc i apart h) r in
      elim due [
        | inl listed ↦ inv.stays listed
        | inr (i, ttl, e, done) ↦ inv.stored i (ap won done) (ttl, e)
      ]
