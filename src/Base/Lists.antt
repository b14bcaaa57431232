-- ===== src/Base/Lists.antt =====
-- Lists measured and indexed by native numbers, under the library's names.
use Prim.Native.Nat.{ℕ, zero, suc, ◌+◌, ◌-◌, ◌≤◌, min}
use mathlib.Core.Path.{◌≡◌, refl, ap, sym, ◌∙◌}
use mathlib.Core.Bool.{Bool, true, false}
use mathlib.Core.List.{List, [], ◌∷◌, ◌++◌}
use mathlib.Core.Option.{Option, none, some}
use native.Mathlib.Omega.{arith}
use native.Mathlib.Nat.{suc-add}
use mathlib.Core.Logic.{inl, inr}
use fuel_station_controller.Base.Tests.{Bool-cases, Option-cases}

module _ {ℓ} {A : Type ℓ} where
  abbrev pub length : List A → ℕ
  length [] = 0
  length (x ∷ xs) = suc (length xs)

  abbrev pub get_elem? : List A → ℕ → Option A
  get_elem? [] i = none
  get_elem? (x ∷ xs) zero = some x
  get_elem? (x ∷ xs) (suc i) = get_elem? xs i

  abbrev pub get_or : List A → ℕ → A → A
  get_or [] i d = d
  get_or (x ∷ xs) zero d = x
  get_or (x ∷ xs) (suc i) d = get_or xs i d

  abbrev pub take : ℕ → List A → List A
  take zero xs = []
  take (suc n) [] = []
  take (suc n) (x ∷ xs) = x ∷ take n xs

  abbrev pub drop : ℕ → List A → List A
  drop zero xs = xs
  drop (suc n) [] = []
  drop (suc n) (x ∷ xs) = drop n xs

  abbrev pub All {κ} : (A → Type κ) → List A → Type κ
  All P [] = Unit {κ}
  All P (x ∷ xs) = P x × All P xs

-- The index of the first element that passes the test (`Iterator::position`).
abbrev pub position {ℓ} : {A : Type ℓ} → (A → Bool) → List A → Option ℕ
position p [] = none
position p (x ∷ xs) = elim (p x) [
  | true ↦ some 0
  | false ↦ elim (position p xs) [ none ↦ none | some i ↦ some (suc i) ]
]

module _ {ℓ} {A : Type ℓ} where
  pub length-append : (xs ys : List A) → length (xs ++ ys) ≡ length xs + length ys
  length-append [] ys = omega arith
  length-append (x ∷ xs) ys = omega (arith, length-append xs ys)

  pub length-take : (n : ℕ) (xs : List A) → length (take n xs) ≡ min n (length xs)
  length-take zero xs = omega arith
  length-take (suc n) [] = omega arith
  length-take (suc n) (x ∷ xs) = omega (arith, length-take n xs)

  pub length-drop : (n : ℕ) (xs : List A) → length (drop n xs) ≡ length xs - n
  length-drop zero xs = omega arith
  length-drop (suc n) [] = omega arith
  length-drop (suc n) (x ∷ xs) = omega (arith, length-drop n xs)

  pub take-append : (xs ys : List A) → take (length xs) (xs ++ ys) ≡ xs
  take-append [] ys = refl
  take-append (x ∷ xs) ys = ap (λ t. x ∷ t) (take-append xs ys)

  pub drop-append : (xs ys : List A) → drop (length xs) (xs ++ ys) ≡ ys
  drop-append [] ys = refl
  drop-append (x ∷ xs) ys = drop-append xs ys

  pub drop_exact : (n : ℕ) (xs ys : List A) → n ≡ length xs → drop n (xs ++ ys) ≡ ys
  drop_exact n xs ys e = rw e (drop-append xs ys)

  pub take_exact : (n : ℕ) (xs ys : List A) → n ≡ length xs → take n (xs ++ ys) ≡ xs
  take_exact n xs ys e = rw e (take-append xs ys)

  pub All-append {κ} : (P : A → Type κ) (xs ys : List A) → All P xs → All P ys → All P (xs ++ ys)
  All-append P [] ys h k = k
  All-append P (x ∷ xs) ys h k = (h.0, All-append P xs ys h.1 k)

-- Facts about the element `x` that stands behind a prefix.
module _ {ℓ} {A : Type ℓ} where
  pub get_or-middle :
      (xs : List A) (x : A) (ys : List A) (d : A) → get_or (xs ++ (x ∷ ys)) (length xs) d ≡ x
  get_or-middle [] x ys d = refl
  get_or-middle (z ∷ xs) x ys d = get_or-middle xs x ys d

  pub drop_past : (xs : List A) (x : A) (ys : List A) → drop (length xs + 1) (xs ++ (x ∷ ys)) ≡ ys
  drop_past [] x ys = refl
  drop_past (z ∷ xs) x ys = ground (arith, drop_past xs x ys)

  drop-nil : (k : ℕ) → ◌≡◌ {A = List A} (drop k []) []
  drop-nil zero = refl
  drop-nil (suc k) = refl

  pub drop-drop : (n m : ℕ) (xs : List A) → drop (n + m) xs ≡ drop m (drop n xs)
  drop-drop zero m xs = ap (λ k. drop k xs) (omega arith)
  drop-drop (suc n) m [] = drop-nil (suc n + m) ∙ sym (drop-nil m)
  drop-drop (suc n) m (x ∷ xs) = rw suc-add (drop-drop n m xs)

  pub position_found :
      (p : A → Bool) (xs : List A) (x : A) (ys : List A)
      → All (λ z. p z ≡ false) xs
      → p x ≡ true
      → position p (xs ++ (x ∷ ys)) ≡ some (length xs)
  position_found p [] x ys h k = rw k
  position_found p (z ∷ xs) x ys h k = rw (h.0, position_found p xs x ys h.1 k)

  pub position-none :
      (p : A → Bool) (xs : List A) → All (λ z. p z ≡ false) xs → position p xs ≡ none
  position-none p [] h = refl
  position-none p (z ∷ xs) h = ground (arith, position-none p xs h.1)

-- What `position` found: the prefix that it passed over, the element, and the rest.
pub record IsFirst {ℓ} {A : Type ℓ} (p : A → Bool) (xs : List A) (i : ℕ) : Type ℓ where
  pub before : List A
  pub element : A
  pub after : List A
  pub split : xs ≡ before ++ (element ∷ after)
  pub count : length before ≡ i
  pub passed : All (λ z. p z ≡ false) before
  pub holds : p element ≡ true

module _ {ℓ} {A : Type ℓ} where
  pub position-IsFirst :
      (p : A → Bool) (xs : List A) (i : ℕ) → position p xs ≡ some i → IsFirst p xs i
  position-IsFirst p [] i h = absurd (ground arith)
  position-IsFirst p (x ∷ xs) i h = elim (Bool-cases (p x)) [
    | inl e ↦ record {
      before = [];
      element = x;
      after = xs;
      split = refl;
      count = ground arith;
      passed = tt;
      holds = e;
    }
    | inr e ↦ elim (Option-cases (position p xs)) [
      | inl n ↦ absurd (ground arith)
      | inr (j, q) ↦
          let w = position-IsFirst p xs j q in
          record {
            before = x ∷ w.before;
            element = w.element;
            after = w.after;
            split = ap (λ t. x ∷ t) w.split;
            count = ground arith;
            passed = (e, w.passed);
            holds = w.holds;
          }
    ]
  ]

module _ {ℓ} {A : Type ℓ} where
  pub get_or_exact :
      (n : ℕ) (xs : List A) (x : A) (ys : List A) (d : A)
      → n ≡ length xs
      → get_or (xs ++ (x ∷ ys)) n d ≡ x
  get_or_exact n xs x ys d e = rw e (get_or-middle xs x ys d)

  -- The last element split off.
  pub take_snoc :
      (n : ℕ) (xs : List A) (d : A) → length xs ≡ suc n → xs ≡ take n xs ++ (get_or xs n d ∷ [])
  take_snoc n [] d h = absurd (omega arith)
  take_snoc zero (x ∷ []) d h = refl
  take_snoc zero (x ∷ y ∷ xs) d h = absurd (omega arith)
  take_snoc (suc n) (x ∷ xs) d h = ap (λ t. x ∷ t) (take_snoc n xs d (omega arith))

  pub last_two :
      (xs : List A)
      → 2 ≤ length xs
      → (front : List A) × (x : A) × (y : A) × (xs ≡ front ++ (x ∷ y ∷ []))
  last_two [] h = absurd (omega arith)
  last_two (x ∷ []) h = absurd (omega arith)
  last_two (x ∷ y ∷ []) h = ([], x, y, refl)
  last_two (x ∷ y ∷ z ∷ xs) h =
      let (f, u, v, e) = last_two (y ∷ z ∷ xs) (omega arith) in (x ∷ f, u, v, ap (λ t. x ∷ t) e)

module _ {ℓ κ} {A : Type ℓ} (P : A → Type κ) where
  pub All-split :
      (xs : List A) (x : A) (ys : List A) → All P (xs ++ (x ∷ ys)) → All P xs × P x × All P ys
  All-split [] x ys h = (tt, h.0, h.1)
  All-split (z ∷ xs) x ys h = let (a, b, c) = All-split xs x ys h.1 in ((h.0, a), b, c)

module _ {ℓ} {A : Type ℓ} where
  -- Two lists with two more elements each are equal only part by part.
  pub append-two_inj :
      (xs ys : List A) (a b c d : A)
      → xs ++ (a ∷ b ∷ []) ≡ ys ++ (c ∷ d ∷ [])
      → (xs ≡ ys) × (a ≡ c) × (b ≡ d)
  append-two_inj [] [] a b c d e = (refl, cc, cc)
  append-two_inj [] (y ∷ ys) a b c d e =
      absurd (omega (arith, ap length e, length-append ys (c ∷ d ∷ [])))
  append-two_inj (x ∷ xs) [] a b c d e =
      absurd (omega (arith, ap length e, length-append xs (a ∷ b ∷ [])))
  append-two_inj (x ∷ xs) (y ∷ ys) a b c d e =
      let (p, q, r) = append-two_inj xs ys a b c d cc in (cc, q, r)
