-- ===== src/Customization/Keyed.antt =====
-- Lists whose elements are told apart by a text key: the loops of mergeContainerList and of
-- mergeEnvByName in operator/pkg/customization/pod.go, which replace the first element with the same
-- key or append at the end.
use konflux_ci.Prelude.{
  String, Bool, true, false, not, ◌&&◌, List, [], ◌∷◌, ◌++◌, ◌≡◌, refl, ◌∙◌, Option, none, some,
  ◌==◌, string_eq, if◌then◌else◌, keep_if, all, subst, eq_of_beq, inl, inr, Bool-cases, arith,
}

abbrev pub or_else {ℓ} : {A : Type ℓ} → Option A → Option A → Option A
or_else none o = o
or_else (some a) o = some a

module _ {ℓ} {A : Type ℓ} (key : A → String) where
  unfoldable pub replace_or_append : A → List A → List A
  replace_or_append x [] = x ∷ []
  replace_or_append x (y ∷ ys) =
      let rest = replace_or_append x ys in if key y == key x then x ∷ ys else y ∷ rest

  -- For each element of the second list in turn.
  unfoldable pub replace_or_append_all : List A → List A → List A
  replace_or_append_all base [] = base
  replace_or_append_all base (x ∷ xs) = replace_or_append_all (replace_or_append x base) xs

  -- The first and the last element with a key.
  unfoldable pub find_key : String → List A → Option A
  find_key k [] = none
  find_key k (x ∷ xs) = let rest = find_key k xs in if key x == k then some x else rest

  unfoldable pub find_last_key : String → List A → Option A
  find_last_key k [] = none
  find_last_key k (x ∷ xs) = or_else (find_last_key k xs) (if key x == k then some x else none)

  pub find_last_key-snoc :
      (k : String) (xs : List A) (x : A)
      → (key x == k) ≡ true
      → find_last_key k (xs ++ x ∷ []) ≡ some x
  unfolding find_last_key
  find_last_key-snoc k [] x h = rw h
  find_last_key-snoc k (y ∷ ys) x h = rw (find_last_key-snoc k ys x h)

  abbrev pub with_key : String → List A → List A
  with_key k xs = keep_if (λ y. key y == k) xs

  -- No key stands twice.
  abbrev pub HasDistinctKeys : List A → Type 0
  HasDistinctKeys [] = Unit
  HasDistinctKeys (x ∷ xs) = (all (λ y. not (key y == key x)) xs ≡ true) × HasDistinctKeys xs

  pub find_key-replace_or_append :
      (k : String) (x : A) (xs : List A)
      → find_key k (replace_or_append x xs) ≡ (if key x == k then some x else find_key k xs)
  unfolding find_key replace_or_append
  find_key-replace_or_append k x [] = refl
  find_key-replace_or_append k x (y ∷ ys) = ground (
    arith,
    find_key-replace_or_append k x ys,
    string_eq.agrees (key y) (key x),
    string_eq.agrees (key y) k,
    string_eq.agrees (key x) k,
  )

  -- The last of the new elements with the key, and else what was found before.
  pub find_key-replace_or_append_all :
      (k : String) (base xs : List A)
      → find_key k (replace_or_append_all base xs) ≡ or_else (find_last_key k xs) (find_key k base)
  unfolding replace_or_append_all find_last_key
  find_key-replace_or_append_all k base [] = refl
  find_key-replace_or_append_all k base (x ∷ xs) = ground (
    arith,
    find_key-replace_or_append_all k (replace_or_append x base) xs,
    find_key-replace_or_append k x base,
  )

  with_key-replace_or_append :
      (k : String) (x : A) (xs : List A)
      → (key x == k) ≡ false
      → with_key k (replace_or_append x xs) ≡ with_key k xs
  unfolding replace_or_append
  with_key-replace_or_append k x [] h = ground (arith, h)
  with_key-replace_or_append k x (y ∷ ys) h = ground (
    arith,
    with_key-replace_or_append k x ys h,
    string_eq.agrees (key y) (key x),
    string_eq.agrees (key y) k,
    string_eq.agrees (key x) k,
  )

  -- The elements of a key that is not among the new ones stay as they are.
  pub with_key-replace_or_append_all :
      (k : String) (base xs : List A)
      → find_last_key k xs ≡ none
      → with_key k (replace_or_append_all base xs) ≡ with_key k base
  unfolding replace_or_append_all find_last_key
  with_key-replace_or_append_all k base [] h = refl
  with_key-replace_or_append_all k base (x ∷ xs) h =
      with_key-replace_or_append_all k (replace_or_append x base) xs (ground (arith, h))
      ∙ with_key-replace_or_append k x base (ground (arith, h))

  fresh-replace_or_append :
      (k : String) (x : A) (xs : List A)
      → (key x == k) ≡ false
      → all (λ y. not (key y == k)) xs ≡ true
      → all (λ y. not (key y == k)) (replace_or_append x xs) ≡ true
  unfolding replace_or_append
  fresh-replace_or_append k x [] n h = ground (arith, n)
  fresh-replace_or_append k x (y ∷ ys) n h = ground (arith, fresh-replace_or_append k x ys n, n, h)

  replace_or_append-HasDistinctKeys :
      (x : A) (xs : List A) → HasDistinctKeys xs → HasDistinctKeys (replace_or_append x xs)
  unfolding replace_or_append
  replace_or_append-HasDistinctKeys x [] d = (refl, tt)
  replace_or_append-HasDistinctKeys x (y ∷ ys) d = elim (Bool-cases (key y == key x)) [
    | inl e ↦
        rw (e, replace_or_append)
          (subst (λ k. all (λ z. not (key z == k)) ys ≡ true) (eq_of_beq e) d.0, d.1)
    | inr n ↦
        rw (n, replace_or_append)
          (
            fresh-replace_or_append (key y) x ys
                (ground
                  (arith, n, string_eq.agrees (key y) (key x), string_eq.agrees (key x) (key y)))
                d.0,
            replace_or_append-HasDistinctKeys x ys d.1,
          )
  ]

  pub replace_or_append_all-HasDistinctKeys :
      (base xs : List A) → HasDistinctKeys base → HasDistinctKeys (replace_or_append_all base xs)
  unfolding replace_or_append_all
  replace_or_append_all-HasDistinctKeys base [] d = d
  replace_or_append_all-HasDistinctKeys base (x ∷ xs) d =
      replace_or_append_all-HasDistinctKeys (replace_or_append x base) xs
        (replace_or_append-HasDistinctKeys x base d)

  -- The test for it.
  abbrev pub distinct_keys : List A → Bool
  distinct_keys [] = true
  distinct_keys (x ∷ xs) = all (λ y. not (key y == key x)) xs && distinct_keys xs

  pub HasDistinctKeys-of_test : (xs : List A) → distinct_keys xs ≡ true → HasDistinctKeys xs
  HasDistinctKeys-of_test [] h = tt
  HasDistinctKeys-of_test (x ∷ xs) h =
      (ground (arith, h), HasDistinctKeys-of_test xs (ground (arith, h)))
