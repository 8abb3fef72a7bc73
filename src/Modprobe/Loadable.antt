-- ===== src/Modprobe/Loadable.antt =====
-- What "loadable" rests on.
use win_validator.Base.{
  ℕ, ◌≡◌, ◌⊎◌, inl, inr, refl, Bool, true, false, List, [], ◌∷◌, Option, none, some, Text, codes,
  split, drop, Option-cases, Bool-cases, ◌==◌,
}
use win_validator.Modprobe.{
  is_self_load, Run, good_plan, own_directive, before_comment, bridge_nf_loadable, with_conf,
  run_is_good,
}

module _ (is_system : Text → Bool) (modprobe : List Text → Run) where
  -- The words that the manager's start would load the module by: the plain ones where the
  -- configuration has no directive of its own, or those of its first directive, which is the
  -- self-load idiom.
  abbrev Loads : List Text → List Text → Type 0
  Loads conf argv =
      ((own_directive conf ≡ none) × (argv ≡ codes "br_netfilter" ∷ []))
      ⊎ ((line : Text) × (own_directive conf ≡ some line)
          × (is_self_load is_system (before_comment (drop 2 (split line))) ≡ some argv))

  -- Their dry run exited 0, and its plan inserts br_netfilter and carries no install line.
  abbrev pub RestsOnPlan : Type 0
  RestsOnPlan =
      (conf : ℕ × List Text) × (argv : List Text) × (r : ℕ × List Text) × (modprobe
          (codes "-c" ∷ [])
        ≡ some conf)
      × (modprobe (codes "-n" ∷ codes "-v" ∷ argv) ≡ some r)
      × (good_plan r ≡ true)
      × Loads conf.1 argv

  run_is_good-some :
      (o : Run) → run_is_good o ≡ true → (r : ℕ × List Text) × (o ≡ some r) × (good_plan r ≡ true)
  run_is_good-some none h = cc
  run_is_good-some (some r) h = (r, refl, h)

  idiom_plan :
      (conf : ℕ × List Text) (line : Text) (o : Option (List Text))
      → modprobe (codes "-c" ∷ []) ≡ some conf
      → own_directive conf.1 ≡ some line
      → is_self_load is_system (before_comment (drop 2 (split line))) ≡ o
      → elim o [
        | none ↦ false
        | some argv ↦ run_is_good (modprobe (codes "-n" ∷ codes "-v" ∷ argv))
      ]
        ≡ true
      → RestsOnPlan
  idiom_plan conf line none c own e h = cc
  idiom_plan conf line (some argv) c own e h =
      let (r, ran, good) = run_is_good-some (modprobe (codes "-n" ∷ codes "-v" ∷ argv)) h in
      (conf, argv, r, c, ran, good, inr (line, own, e))

  plain_plan :
      (r : ℕ × List Text) (conf : Run)
      → modprobe (codes "-c" ∷ []) ≡ conf
      → modprobe (codes "-n" ∷ codes "-v" ∷ codes "br_netfilter" ∷ []) ≡ some r
      → (r.0 == 0) ≡ true
      → with_conf is_system modprobe r conf ≡ true
      → RestsOnPlan
  plain_plan r none c ran rc h = cc
  plain_plan r (some (code, conf)) c ran rc h = elim (Option-cases (own_directive conf)) [
    | inl no_directive ↦ (
      (code, conf),
      codes "br_netfilter" ∷ [],
      r,
      c,
      ran,
      rw rc (rw (with_conf, no_directive) at h),
      inl (no_directive, refl),
    )
    | inr (line, own) ↦ idiom_plan (code, conf) line _ c own refl (rw (with_conf, own) at h)
  ]

  -- "Loadable" is only ever said on the dry run of the words that the start would load the module
  -- by: the plain ones, or those of a self-load directive of the configuration.
  pub bridge_nf_loadable-RestsOnPlan : bridge_nf_loadable is_system modprobe ≡ true → RestsOnPlan
  unfolding bridge_nf_loadable
  bridge_nf_loadable-RestsOnPlan h =
      elim (Option-cases (modprobe (codes "-n" ∷ codes "-v" ∷ codes "br_netfilter" ∷ []))) [
        | inl e ↦ cc (rw (bridge_nf_loadable, e) at h)
        | inr (r, e) ↦ elim (Bool-cases (r.0 == 0)) [
          | inl rc ↦
              plain_plan r (modprobe (codes "-c" ∷ [])) refl e rc
                (rw (bridge_nf_loadable, e, rc) at h)
          | inr rc ↦ cc (rw (bridge_nf_loadable, e, rc) at h)
        ]
      ]
