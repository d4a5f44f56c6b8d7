-- ===== src/Outbox/Backoff.antt =====
-- The route of a message and the waits between its attempts (src/outbox.rs).
use bitmancer.Prelude.{
  ℕ, ◌+◌, ◌-◌, ◌*◌, ◌^◌, ◌≤◌, ◌≡◌, refl, ◌≢◌, ◌↔◌, inl, inr, Bool, true, false, Option, none, some,
  String, arith, min, ltb, Bool-cases,
}
use bitmancer.Prelude.Keys.{string_eq}
use bitmancer.Outbox.{Pending, backoff, base_backoff, max_backoff, route, mesh, nostr}
use native.Mathlib.Nat.{pow-suc}
use text.Mathlib.TextEquality.{eq_iff}

min_doubles : (b m x : ℕ) → min (2 * x) m ≡ min (2 * min x m) m
min_doubles b m x = ground arith

doubled :
    (n : ℕ)
    → min (base_backoff * 2 ^ min (n + 1) 16) max_backoff
      ≡ min (2 * min (base_backoff * 2 ^ min n 16) max_backoff) max_backoff
doubled n = elim (Bool-cases (ltb n 16)) [
  | inl small ↦
      let low : min n 16 ≡ n = ground arith in
      let high : min (n + 1) 16 ≡ n + 1 = ground arith in
      rw (low, high) (ground (arith, pow-suc 2 n))
  | inr large ↦
      let low : min n 16 ≡ 16 = ground arith in
      let high : min (n + 1) 16 ≡ 16 = ground arith in rw (low, high) refl
]

-- The wait is 30 seconds up to one attempt, and each further attempt doubles it, up to 15 minutes.
pub backoff_doubles :
    (p : Pending)
    → (p.attempts ≤ 1 → backoff p ≡ base_backoff)
      × (1 ≤ p.attempts
          → backoff (record p { attempts = p.attempts + 1 }) ≡ min (2 * backoff p) max_backoff)
unfolding backoff
backoff_doubles p = (
  λ h. let e : p.attempts - 1 ≡ 0 = omega (arith, h) in rw e refl,
  λ h.
      let e : p.attempts + 1 - 1 ≡ p.attempts - 1 + 1 = omega (arith, h) in
      rw e (doubled (p.attempts - 1)),
)

some_route : (a b : String) → some a ≡ some b → b ≢ "" → route false (some a) ≡ nostr
unfolding route
some_route a b e ne = ground (arith, e, eq_iff a "", eq_iff b "", ne)

-- The mesh is used whenever it can be; the relays carry only a message whose peer has an address
-- that is not empty; the rest is held back.
pub route_choice :
    (session : Bool) (address : Option String)
    → ((route session address ≡ mesh) ↔ (session ≡ true))
      × ((route session address ≡ nostr)
          ↔ ((session ≡ false) × ((a : String) × (address ≡ some a) × (a ≢ ""))))
unfolding route
route_choice true address = ((λ h. refl, λ h. refl), (λ h. cc, λ h. cc (h.0)))
route_choice false none = ((λ h. cc, λ h. cc), (λ h. cc, λ h. cc (h.1.1)))
route_choice false (some a) = (
  (λ h. ground (arith, h), λ h. cc),
  (
    λ h. (refl, (a, refl, λ e. ground (arith, h, e, eq_iff a ""))),
    λ (e, (b, same, ne)). some_route a b same ne,
  ),
)
