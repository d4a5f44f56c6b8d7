-- ===== src/Noise/Window.antt =====
-- The replay window of src/noise_protocol.rs against the plain list of all the nonces accepted.
use bitmancer.Prelude.{
  ℕ, ◌+◌, ◌^◌, ◌≤◌, ◌<◌, max, ◌≡◌, Bool, true, not, ◌&&◌, List, [], ◌∷◌, inl, inr, ltb, arith,
  Bool-cases,
}
use bitmancer.Prelude.Keys.{nat_eq}
use bitmancer.Prelude.Sets.{contains, contains-insert, contains-filter, contains-nil}
use bitmancer.Noise.{
  NoiseCipherState, is_valid_nonce, slide, mark_nonce_as_seen, add_u64, replay_window_size,
}

-- The nonces that were accepted, all of them.
abbrev pub Accepted : Type 0
Accepted = List ℕ

unfoldable pub newest : Accepted → ℕ
newest [] = 0
newest (n ∷ ns) = max n (newest ns)

-- A nonce is welcome when it was not accepted before and is less than 1,024 behind the newest.
unfoldable pub welcomes : Accepted → ℕ → Bool
unfolding newest
welcomes accepted n = not (contains accepted n) && ltb (newest accepted) (n + 1024)

-- The window holds the accepted nonces that are recent enough.
pub record Tracks (c : NoiseCipherState) (accepted : Accepted) : Type 0 where
  pub highest : c.highest_received_nonce ≡ newest accepted
  pub below : newest accepted < 2 ^ 32
  pub recent :
      (d : ℕ)
      → contains c.replay_window d ≡ (contains accepted d && ltb (newest accepted) (d + 1024))

newest-contains : (d : ℕ) (ns : Accepted) → contains ns d ≡ true → d ≤ newest ns
unfolding contains newest
newest-contains d [] h = cc
newest-contains d (n ∷ ns) h = ground (arith, newest-contains d ns)

add_window : (n : ℕ) → n < 2 ^ 32 → add_u64 n replay_window_size ≡ n + 1024
add_window n h = omega arith

pub is_valid-eq-welcomes :
    (c : NoiseCipherState) (accepted : Accepted) (n : ℕ)
    → Tracks c accepted
    → n < 2 ^ 32
    → is_valid_nonce c n ≡ welcomes accepted n
unfolding is_valid_nonce welcomes
is_valid-eq-welcomes c accepted n t h =
    ground (arith, add_window n h, t.highest, t.recent n, newest-contains n accepted)

slide-recent :
    (c : NoiseCipherState) (accepted : Accepted) (n d : ℕ)
    → Tracks c accepted
    → n < 2 ^ 32
    → newest accepted < n
    → contains (slide c n) d ≡ (contains accepted d && ltb n (d + 1024))
unfolding slide
slide-recent c accepted n d t small newer = ground (
  arith,
  t.highest,
  t.below,
  t.recent d,
  newest-contains d accepted,
  contains-filter (λ (m : ℕ). ltb n (add_u64 m replay_window_size)) c.replay_window d,
  contains-nil d,
)

pub mark-Tracks :
    (c : NoiseCipherState) (accepted : Accepted) (n : ℕ)
    → Tracks c accepted
    → n < 2 ^ 32
    → welcomes accepted n ≡ true
    → Tracks (mark_nonce_as_seen c n) (n ∷ accepted)
unfolding mark_nonce_as_seen welcomes newest
mark-Tracks c accepted n t small fine = elim (Bool-cases (ltb c.highest_received_nonce n)) [
  | inl newer ↦ rw newer (record {
    highest = ground (arith, t.highest, newer);
    below = ground (arith, t.below);
    recent = λ d. rw contains-insert (
        unfold contains in
        ground (
          arith,
          newer,
          t.highest,
          slide-recent c accepted n d t small (ground (arith, newer, t.highest)),
          newest-contains d accepted,
        ));
  })
  | inr older ↦ rw older (record {
    highest = ground (arith, t.highest, older);
    below = ground (arith, t.below);
    recent = λ d.
        rw contains-insert (unfold contains in ground (arith, older, t.highest, t.recent d, fine));
  })
]
