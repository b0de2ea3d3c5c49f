-- ===== src/Agent/Config/Loading.antt =====
-- agent/src/config/mod.rs: which configurations `load` accepts.
use all4one.Prelude.{
  ◌≤◌, ◌≡◌, ◌∙◌, refl, ap, subst, true, false, ◌||◌, Option, none, some, Text, codes, split, ltb,
  Result, ok, err, panic, ◌>>=◌, nat_eq, list_eq, ◌==◌, inl, inr, Bool-cases, Option-cases, arith,
}
use all4one.Agent.Config.{
  AgentConfig, Toml, lookup_path, is_blank_str, ensure_required, check_config, or_error, load,
}

-- A chain that gives a value gave one at each step.
bind_ok {ℓ κ} :
    {A : Type ℓ} {B : Type κ} (m : Result Text A) (f : A → Result Text B) (b : B)
    → m >>= f ≡ ok b
    → (a : A) × (m ≡ ok a) × (f a ≡ ok b)
bind_ok (ok a) f b h = (a, refl, h)
bind_ok (err e) f b h = absurd (ground (arith, h))
bind_ok panic f b h = absurd (ground (arith, h))

-- The key is there, and is no blank text.
abbrev pub IsGiven : (toml : Toml) → Text → toml.Value → Type 0
IsGiven toml key v =
    (w : toml.Value) × (lookup_path toml (split b'.' key) v ≡ some w)
    × (is_blank_str toml (toml.as_str w) ≡ false)

ensure_required-IsGiven :
    (toml : Toml) (v : toml.Value) (key : Text) (u : Unit {0})
    → ensure_required toml v key ≡ ok u
    → IsGiven toml key v
unfolding ensure_required
ensure_required-IsGiven toml v key u h = elim (Option-cases (lookup_path toml (split b'.' key) v)) [
  | inl missing ↦ absurd (ground (arith, missing, h))
  | inr (w, found) ↦ (w, found, ground (arith, found, h))
]

check_config_lem :
    (c c' : AgentConfig)
    → check_config c ≡ ok c'
    → (c ≡ c')
      × (c.node.tier ≤ 2)
      × ((c.security.mode == codes "shared-secret" || c.security.mode == codes "ca") ≡ true)
unfolding check_config
check_config_lem c c' h = elim (Bool-cases (ltb 2 c.node.tier)) [
  | inl high ↦ absurd (ground (arith, high, h))
  | inr fine ↦ ground (arith, fine, h)
]

or_error_lem {ℓ} : {A : Type ℓ} (e : Text) (o : Option A) (a : A) → or_error e o ≡ ok a → o ≡ some a
or_error_lem e none a h = absurd (ground (arith, h))
or_error_lem e (some x) a h = ground (arith, h)

-- A configuration that is loaded is the one of the file, with a tier of 0, 1 or 2 and one of the two
-- security modes; the file names the tier, the availability, the directory of data and the mode, and
-- none of these is a blank text.
pub load_lem :
    (toml : Toml) (raw : Option Text) (parse : Text → Option toml.Value)
    (from_str : Text → Option AgentConfig) (c : AgentConfig)
    → load toml raw parse from_str ≡ ok c
    → (text : Text) × (v : toml.Value) × (raw ≡ some text)
      × (parse text ≡ some v)
      × (from_str text ≡ some c)
      × (c.node.tier ≤ 2)
      × ((c.security.mode == codes "shared-secret" || c.security.mode == codes "ca") ≡ true)
      × IsGiven toml (codes "node.tier") v
      × IsGiven toml (codes "node.availability") v
      × IsGiven toml (codes "node.data_dir") v
      × IsGiven toml (codes "security.mode") v
unfolding load
load_lem toml raw parse from_str c loaded =
    let (text, is_raw, h1) = bind_ok _ _ c loaded in
    let (v, is_parsed, h2) = bind_ok _ _ c h1 in
    let (u1, tier, h3) = bind_ok _ _ c h2 in
    let (u2, availability, h4) = bind_ok _ _ c h3 in
    let (u3, data_dir, h5) = bind_ok _ _ c h4 in
    let (u4, mode, h6) = bind_ok _ _ c h5 in
    let (c', is_config, checked) = bind_ok _ _ c h6 in
    let (same, low, known) = check_config_lem c' c checked in
    (
      text,
      v,
      or_error_lem _ raw text is_raw,
      or_error_lem _ (parse text) v is_parsed,
      or_error_lem _ (from_str text) c' is_config ∙ ap some same,
      subst (λ (d : AgentConfig). d.node.tier ≤ 2) same low,
      subst
          (λ (d : AgentConfig).
            (d.security.mode == codes "shared-secret" || d.security.mode == codes "ca") ≡ true)
          same known,
      ensure_required-IsGiven toml v (codes "node.tier") u1 tier,
      ensure_required-IsGiven toml v (codes "node.availability") u2 availability,
      ensure_required-IsGiven toml v (codes "node.data_dir") u3 data_dir,
      ensure_required-IsGiven toml v (codes "security.mode") u4 mode,
    )
