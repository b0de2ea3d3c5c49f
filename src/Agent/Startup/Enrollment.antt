-- ===== src/Agent/Startup/Enrollment.antt =====
-- agent/src/main.rs: when the enrollment of a node succeeds.
use all4one.Prelude.{
  ℕ, zero, suc, ◌+◌, ◌≤◌, ◌<◌, ◌≡◌, ◌≢◌, ◌∙◌, refl, subst, Option, none, some, List, [], ◌∷◌, Text,
  any, true, false, list_eq, nat_eq, inl, inr, Option-cases, arith,
}
use all4one.Storage.Chunks.{Files}
use all4one.Cluster.Scheduler.{is_some}
use all4one.Certificates.{has_ca_key, has_node_credentials, save_node_cert}
use all4one.Certificates.Authority.{load-save_node_cert}
use all4one.Agent.Config.{SecurityConfig}
use all4one.Agent.Startup.{
  Bundle, join_secret, ca_path, ask_seeds, enroll_attempts, save_bundle, enroll_with_seed_ca,
}

-- Some seed grants a bundle.
ask_seeds-any :
    (ask : Text → Option Bundle) (seeds : List Text)
    → is_some (ask_seeds ask seeds) ≡ any (λ seed. is_some (ask seed)) seeds
unfolding ask_seeds
ask_seeds-any ask [] = refl
ask_seeds-any ask (seed ∷ seeds) = ground (arith, ask_seeds-any ask seeds)

enroll_attempts-at :
    (ask : ℕ → Text → Option Bundle) (seeds : List Text) (k : ℕ)
    → is_some (ask_seeds (ask k) seeds) ≡ true
    → (n i : ℕ) → i ≤ k
    → k < i + n
    → is_some (enroll_attempts ask seeds n i) ≡ true
unfolding enroll_attempts
enroll_attempts-at ask seeds k granted zero i lo hi = absurd (omega arith)
enroll_attempts-at ask seeds k granted (suc n) i lo hi =
    elim (Option-cases (ask_seeds (ask i) seeds)) [
      | inr (b, now) ↦ rw (enroll_attempts, now) refl
      | inl later ↦
          let apart : i ≢ k =
            λ at. absurd (cc (granted, subst (λ j. ask_seeds (ask j) seeds ≡ none) at later)) in
          rw (enroll_attempts, later)
            (enroll_attempts-at ask seeds k granted n (suc i) (omega arith) (omega arith))
    ]

enroll_attempts_none :
    (ask : ℕ → Text → Option Bundle) (seeds : List Text)
    → ((k : ℕ) → is_some (ask_seeds (ask k) seeds) ≡ false)
    → (n i : ℕ) → is_some (enroll_attempts ask seeds n i) ≡ false
unfolding enroll_attempts
enroll_attempts_none ask seeds silent zero i = refl
enroll_attempts_none ask seeds silent (suc n) i =
    ground (arith, silent i, enroll_attempts_none ask seeds silent n (suc i))

saved :
    (o : Option Bundle) (files : Files)
    → is_some o ≡ true
    → (files' : Files) × (save_bundle o files ≡ some files')
      × (has_node_credentials files' ≡ true)
      × (has_ca_key files' ≡ has_ca_key files)
saved none files h = absurd (ground (arith, h))
saved (some b) files h =
    let (whole, crt, key, ca, kept) =
      load-save_node_cert b.node_cert_pem b.node_key_pem b.ca_cert_pem files in
    (save_node_cert b.node_cert_pem b.node_key_pem b.ca_cert_pem files, refl, whole, kept)

module _ (s : SecurityConfig) (seeds : List Text)
    (ask : ℕ → (secret path : Option Text) → Text → Option Bundle) (files : Files) where
  -- If in one of the twenty attempts some seed grants certificates, the enrollment succeeds: the node
  -- then has all its credentials, and an authority's key exactly if it had one.
  pub enroll_reaches_seed :
      (k : ℕ)
      → k < 20
      → any (λ seed. is_some (ask k (join_secret s) (ca_path s) seed)) seeds ≡ true
      → (files' : Files) × (enroll_with_seed_ca s seeds ask files ≡ some files')
        × (has_node_credentials files' ≡ true)
        × (has_ca_key files' ≡ has_ca_key files)
  unfolding enroll_with_seed_ca
  enroll_reaches_seed k in_time granted =
      saved (enroll_attempts (λ i. ask i (join_secret s) (ca_path s)) seeds 20 0) files (
        enroll_attempts-at (λ i. ask i (join_secret s) (ca_path s)) seeds k
          (ask_seeds-any (ask k (join_secret s) (ca_path s)) seeds ∙ granted) 20 0 (omega arith)
          (omega arith))

  -- If no seed ever grants certificates, the enrollment ends all the same, with an error.
  enroll_ends :
      ((k : ℕ) → any (λ seed. is_some (ask k (join_secret s) (ca_path s) seed)) seeds ≡ false)
      → enroll_with_seed_ca s seeds ask files ≡ none
  unfolding enroll_with_seed_ca
  enroll_ends silent =
      unsaved (enroll_attempts (λ i. ask i (join_secret s) (ca_path s)) seeds 20 0) (
        enroll_attempts_none (λ i. ask i (join_secret s) (ca_path s)) seeds
          (λ k. ask_seeds-any (ask k (join_secret s) (ca_path s)) seeds ∙ silent k) 20 0)
    where
      unsaved : (o : Option Bundle) → is_some o ≡ false → save_bundle o files ≡ none
      unsaved none h = refl
      unsaved (some b) h = absurd (ground (arith, h))
