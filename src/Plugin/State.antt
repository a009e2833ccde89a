-- ===== src/Plugin/State.antt =====
-- The cache in Plugin::getPluginState().
use s2e.Common.{
  ◌&&◌, if◌then◌else◌, Option, none, some-eq, arith, ℕ, ◌≡◌, ◌≢◌, refl, sym, ap, ◌∙◌, some,
  Option-cases, ok, ◌==◌, ==_refl, ==_ne, ==_iff, Bool-cases, inl, inr,
}
use s2e.Plugin.{States, store, state_of, Plugin, get_plugin_state}

-- The cache is empty or agrees with the execution state that it is for.
abbrev pub IsCoherent : States → Plugin → Type 0
IsCoherent m p = p.cached_exec_state ≢ 0 → m p.cached_exec_state p.this ≡ some p.cached_state

-- The state of a plugin that there is, or else the one that the factory makes.
abbrev pub found_or : Option ℕ → ℕ → ℕ
found_or none made = made
found_or (some old) made = old

-- A map where the state of the plugin `this` in execution state `s` is `state`, and the others as before.
abbrev pub Sets : States → States → ℕ → ℕ → ℕ → Type 0
Sets m m' s this state = (t q : ℕ) → m' t q ≡ (if s == t && this == q then some state else m t q)

Sets-store : (m : States) (s this state : ℕ) → Sets m (store m s this state) s this state
Sets-store m s this state t q = ground arith

Sets-same : (m : States) (s this state : ℕ) → m s this ≡ some state → Sets m m s this state
Sets-same m s this state f t q = elim (Bool-cases (s == t)) [
  | inr n ↦ rw n refl
  | inl a ↦ elim (Bool-cases (this == q)) [
    | inr n ↦ rw (a, n) refl
    | inl b ↦
        let st = (==_iff s t).0 a in
        let pq = (==_iff this q).0 b in rw (a, b) (ap (λ x. m x q) (sym st) ∙ ap (m s) (sym pq) ∙ f)
  ]
]

-- With a cache that agrees, and a factory that makes something, getPluginState() for an execution state
-- returns the state that the plugin has there, or else what the factory makes, which is its state from
-- then on. No state of another plugin or in another execution state changes, the cache agrees
-- afterwards, and a second call returns the same state whatever its factory makes.
pub get_plugin_state-IsCoherent :
    (m : States) (p : Plugin) (s made : ℕ)
    → IsCoherent m p
    → s ≢ 0
    → made ≢ 0
    → (m' : States) × (p' : Plugin) × (get_plugin_state m p s made
        ≡ ok (m', p', found_or (m s p.this) made))
      × Sets m m' s p.this (found_or (m s p.this) made)
      × IsCoherent m' p'
      × ((other : ℕ) → get_plugin_state m' p' s other ≡ ok (m', p', found_or (m s p.this) made))
unfolding get_plugin_state state_of
get_plugin_state-IsCoherent m p s made v sn mn = elim (Option-cases (m s p.this)) [
  | inr (old, f) ↦
      let kept : Sets m m s p.this old = Sets-same m s p.this old f in
      elim (Bool-cases (p.cached_exec_state == s)) [
        | inl e ↦
            let here : p.cached_exec_state ≡ s = (==_iff p.cached_exec_state s).0 e in
            let same : m s p.this ≡ some p.cached_state =
              ap (λ x. m x p.this) (sym here) ∙ v (λ z. sn (sym here ∙ z)) in
            let cached : p.cached_state ≡ old = some-eq p.cached_state old (sym same ∙ f) in
            (m, p, rw (e, f, cached) refl, rw f kept, v, λ other. rw (e, f, cached) refl)
        | inr e ↦ (
          m,
          record p { cached_state = old; cached_exec_state = s },
          rw (e, state_of, f) refl,
          rw f kept,
          (λ z. f),
          λ other. rw (==_refl s, f) refl,
        )
      ]
  | inl f ↦ elim (Bool-cases (p.cached_exec_state == s)) [
    | inl e ↦
        let here : p.cached_exec_state ≡ s = (==_iff p.cached_exec_state s).0 e in
        absurd (cc (ap (λ x. m x p.this) here, v (λ z. sn (sym here ∙ z)), f))
    | inr e ↦ (
      store m s p.this made,
      record p { cached_state = made; cached_exec_state = s },
      rw (e, state_of, f, ==_ne made 0 mn) refl,
      rw f (Sets-store m s p.this made),
      (λ z. rw (==_refl s, ==_refl p.this) refl),
      λ other. rw (==_refl s, f) refl,
    )
  ]
]
