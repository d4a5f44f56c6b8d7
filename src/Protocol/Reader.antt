-- ===== src/Protocol/Reader.antt =====
-- src/protocol.rs: the closures `read_u8` and `read_slice` of `decode_core`. The cursor `offset`
-- into `raw` is the list of the bytes from it on.
use bitmancer.Prelude.{
  ℕ, ◌≡◌, refl, ap, Bool, true, false, Option, none, some, List, [], ◌∷◌, ◌++◌, arith, ltb,
  if◌then◌else◌, length, take, drop, length-append, length-take, take-append_length,
  drop-append_length, All-take, All-drop,
}
use bitmancer.Prelude.Bytes.{IsByte, IsBytes, IsArray}

abbrev pub Reader {ℓ} : Type ℓ → Type ℓ
Reader A = List ℕ → Option (A × List ℕ)

module _ {ℓ} {A : Type ℓ} where
  unfoldable pub pure : A → Reader A
  pure a raw = some (a, raw)

  -- `?` on an optional value.
  unfoldable pub lift : Option A → Reader A
  lift none raw = none
  lift (some a) raw = some (a, raw)

-- `if !test { return None; }`
unfoldable pub check : Bool → Reader (Unit {0})
check true raw = some (tt, raw)
check false raw = none

continue {ℓ κ} :
    {A : Type ℓ} {B : Type κ} → Option (A × List ℕ) → (A → Reader B) → Option (B × List ℕ)
continue none f = none
continue (some (a, rest)) f = f a rest

infixl 5 ◌>>=◌ ◌>>◌
unfoldable pub ◌>>=◌ {ℓ κ} : {A : Type ℓ} {B : Type κ} → Reader A → (A → Reader B) → Reader B
unfolding continue
◌>>=◌ m f raw = continue (m raw) f

abbrev pub ◌>>◌ {ℓ} : {B : Type ℓ} → Reader (Unit {0}) → Reader B → Reader B
m >> k = m >>= λ _. k

unfoldable pub read_u8 : Reader ℕ
read_u8 [] = none
read_u8 (b ∷ rest) = some (b, rest)

unfoldable pub read_slice : ℕ → Reader (List ℕ)
read_slice n raw = if ltb (length raw) n then none else some (take n raw, drop n raw)

-- One step of a chain, forwards.
pub bind_step {ℓ κ} :
    {A : Type ℓ} {B : Type κ} (m : Reader A) (f : A → Reader B) (raw rest : List ℕ) (a : A)
    → m raw ≡ some (a, rest)
    → (m >>= f) raw ≡ f a rest
unfolding ◌>>=◌
bind_step m f raw rest a h = ap (λ o. continue o f) h

pub check_step {ℓ} :
    {B : Type ℓ} (b : Bool) (k : Reader B) (raw : List ℕ) → b ≡ true → (check b >> k) raw ≡ k raw
unfolding ◌>>=◌ check
check_step true k raw h = refl
check_step false k raw h = cc

-- A slice that stands in front is what is read.
pub read_slice-append :
    (n : ℕ) (xs rest : List ℕ) → length xs ≡ n → read_slice n (xs ++ rest) ≡ some (xs, rest)
unfolding read_slice
read_slice-append n xs rest h = ground (
  arith,
  length-append xs rest,
  ap (λ k. take k (xs ++ rest)) h,
  ap (λ k. drop k (xs ++ rest)) h,
  take-append_length xs rest,
  drop-append_length xs rest,
)

-- What a successful read guarantees of its value; the bytes that are left are bytes.
abbrev pub Post {ℓ κ} : {A : Type ℓ} → (A → Type κ) → Option (A × List ℕ) → Type κ
Post P none = Unit
Post P (some (a, rest)) = P a × IsBytes rest

-- A reader that, over bytes, yields only values with the property.
pub record Ensures {ℓ κ} {A : Type ℓ} (P : A → Type κ) (m : Reader A) : Type (ℓ ⊔ κ) where
  pub at : (raw : List ℕ) → IsBytes raw → Post P (m raw)

module _ {ℓ κ} {A : Type ℓ} {P : A → Type κ} where
  pub Ensures-pure : (a : A) → P a → Ensures P (pure a)
  unfolding pure
  Ensures-pure a h = record { at = λ raw bytes. (h, bytes) }

  pub Ensures-lift : (o : Option A) → ((a : A) → o ≡ some a → P a) → Ensures P (lift o)
  unfolding lift
  Ensures-lift none h = record { at = λ raw bytes. tt }
  Ensures-lift (some a) h = record { at = λ raw bytes. (h a refl, bytes) }

  pub Ensures-weaken {μ} :
      {Q : A → Type μ} (m : Reader A) → ((a : A) → P a → Q a) → Ensures P m → Ensures Q m
  Ensures-weaken {Q = Q} m f h = record { at = λ raw bytes. go (m raw) (h.at raw bytes) }
    where
      go : (o : Option (A × List ℕ)) → Post P o → Post Q o
      go none q = tt
      go (some (a, rest)) q = (f a q.0, q.1)

  pub Ensures-if :
      (b : Bool) (m n : Reader A)
      → (b ≡ true → Ensures P m)
      → (b ≡ false → Ensures P n)
      → Ensures P (if b then m else n)
  Ensures-if true m n h k = h refl
  Ensures-if false m n h k = k refl

pub Ensures-read_u8 : Ensures IsByte read_u8
Ensures-read_u8 = record { at = bytewise }
  where
    bytewise : (raw : List ℕ) → IsBytes raw → Post IsByte (read_u8 raw)
    bytewise [] h = unfold read_u8 in tt
    bytewise (b ∷ rest) h = unfold read_u8 in h

slice-Post :
    (n : ℕ) (raw : List ℕ) (b : Bool)
    → ltb (length raw) n ≡ b
    → IsBytes raw
    → Post (IsArray n) (if b then none else some (take n raw, drop n raw))
slice-Post n raw true e h = tt
slice-Post n raw false e h =
    ((All-take IsByte n raw h, ground (arith, length-take n raw)), All-drop IsByte n raw h)

pub Ensures-read_slice : (n : ℕ) → Ensures (IsArray n) (read_slice n)
unfolding read_slice
Ensures-read_slice n = record { at = λ raw h. slice-Post n raw _ refl h }

module _ {ℓ κ μ} {A B : Type ℓ} {P : A → Type κ} {Q : B → Type μ} where
  pub Ensures-bind :
      (m : Reader A) (f : A → Reader B)
      → Ensures P m
      → ((a : A) → P a → Ensures Q (f a))
      → Ensures Q (m >>= f)
  unfolding ◌>>=◌
  Ensures-bind m f h k = record { at = λ raw bytes. go (m raw) (h.at raw bytes) }
    where
      go : (o : Option (A × List ℕ)) → Post P o → Post Q (continue o f)
      go none q = tt
      go (some (a, rest)) q = (k a q.0).at rest q.1

module _ {ℓ κ} {B : Type ℓ} {Q : B → Type κ} where
  -- What follows a check may use it.
  pub Ensures-check :
      (b : Bool) (k : Reader B) → (b ≡ true → Ensures Q k) → Ensures Q (check b >> k)
  unfolding ◌>>=◌ check
  Ensures-check true k h = record { at = λ raw bytes. (h refl).at raw bytes }
  Ensures-check false k h = record { at = λ raw bytes. tt }

-- What holds of every value holds of the one that was read.
pub Ensures-elim {ℓ κ} :
    {A : Type ℓ} {P : A → Type κ} {m : Reader A}
    → Ensures P m
    → (raw : List ℕ) → IsBytes raw
    → {a : A} {rest : List ℕ} → m raw ≡ some (a, rest)
    → P a
Ensures-elim {P = P} h raw bytes e = (rw e at (h.at raw bytes)).0
