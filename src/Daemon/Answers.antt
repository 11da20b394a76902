-- ===== src/Daemon/Answers.antt =====
-- What holds of the state behind every answer (hpc_batch/daemon.py: the early returns of the
-- request handlers).
use hpc_batch.Base.{◌≡◌, refl, Bool, true, false, ◌⊎◌, inl, inr, if◌then◌else◌}
use hpc_batch.Daemon.{Daemon}
use hpc_batch.Daemon.Reply.{Error, Reply, err}

module _ (P : Daemon → Type 0) where
  -- Of either answer.
  pub either_reply :
      (b : Bool) (out rest : Daemon × Reply) → P out.0 → P rest.0 → P (if b then out else rest).0
  either_reply true out rest h g = h
  either_reply false out rest h g = g

  -- Of the answer behind a lookup that either fails, and changes nothing, or finds something.
  pub reply_after {ℓ} :
      {A : Type ℓ} (d : Daemon) (found : Error ⊎ A) (rest : A → Daemon × Reply)
      → P d
      → ((a : A) → found ≡ inr a → P (rest a).0)
      → P (elim found as (λ _. Daemon × Reply) [ inl e ↦ (d, err e) | inr a ↦ rest a ]).0
  reply_after d (inl e) rest c h = c
  reply_after d (inr a) rest c h = h a refl
