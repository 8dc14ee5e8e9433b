-- ===== src/Prelude/StringMap.antt =====
-- Maps from strings (`HashMap<String, _>`) as association lists, each key at its first place.
use Prim.Native.String.{String}
use mathlib.Core.Path.{◌≡◌, refl, sym, subst, ◌∙◌}
use mathlib.Core.Logic.{inl, inr}
use mathlib.Core.Bool.{Bool, true, false, true≢false}
use mathlib.Core.Option.{Option, none, some}
use mathlib.Core.List.{List, [], ◌∷◌}
use text.Mathlib.Text.{◌==◌}
use text.Mathlib.TextEquality.{eq_iff}
use vcp_media_server.Prelude.Tests.{if◌then◌else◌, Bool-cases}

module _ {ℓ} {A : Type ℓ} where
  unfoldable pub find : List (String × A) → String → Option A
  find [] id = none
  find ((key, x) ∷ rest) id = let later = find rest id in if key == id then some x else later

  unfoldable pub insert : List (String × A) → String → A → List (String × A)
  insert [] id y = (id, y) ∷ []
  insert ((key, x) ∷ rest) id y =
      let later = insert rest id y in if key == id then (id, y) ∷ rest else (key, x) ∷ later

  unfoldable pub delete : List (String × A) → String → List (String × A)
  delete [] id = []
  delete ((key, x) ∷ rest) id =
      let later = delete rest id in if key == id then later else (key, x) ∷ later

-- Two different keys are not both `id`.
keys_apart : (key k id : String) → (key == k) ≡ false → (key == id) ≡ true → (k == id) ≡ false
keys_apart key k id n y = elim (Bool-cases (k == id)) [
  | inl z ↦
      absurd
        (true≢false (sym ((eq_iff key k).1 ((eq_iff key id).0 y ∙ sym ((eq_iff k id).0 z))) ∙ n))
  | inr z ↦ z
]

module _ {ℓ} {A : Type ℓ} where
  both :
      (c : Bool) (x y : Option A)
      → (if c then none else y) ≡ (if c then none else (if c then x else y))
  both true x y = refl
  both false x y = refl

  pub find-insert :
      (rs : List (String × A)) (k id : String) (r : A)
      → find (insert rs k r) id ≡ (if k == id then some r else find rs id)
  unfolding find insert
  find-insert [] k id r = refl
  find-insert ((key, old) ∷ rest) k id r = elim (Bool-cases (key == k)) [
    | inl y ↦
        subst
          (λ j.
            find (if key == k then (k, r) ∷ rest else (key, old) ∷ insert rest k r) id
            ≡ (if k == id then some r else (if j == id then some old else find rest id)))
          (sym ((eq_iff key k).0 y))
          (rw y (elim (Bool-cases (k == id)) [ inl z ↦ rw z refl | inr z ↦ rw z refl ]))
    | inr n ↦ rw n (elim (Bool-cases (key == id)) [
      | inl z ↦ rw (z, keys_apart key k id n z) refl
      | inr z ↦ rw z (find-insert rest k id r)
    ])
  ]

  pub find-delete :
      (rs : List (String × A)) (k id : String)
      → find (delete rs k) id ≡ (if k == id then none else find rs id)
  unfolding find delete
  find-delete [] k id = elim (Bool-cases (k == id)) [ inl z ↦ rw z refl | inr z ↦ rw z refl ]
  find-delete ((key, old) ∷ rest) k id = elim (Bool-cases (key == k)) [
    | inl y ↦
        let later = find-delete rest k id in
        subst
          (λ j.
            find (if key == k then delete rest k else (key, old) ∷ delete rest k) id
            ≡ (if k == id then none else (if j == id then some old else find rest id)))
          (sym ((eq_iff key k).0 y)) (rw y (later ∙ both (k == id) (some old) (find rest id)))
    | inr n ↦ rw n (elim (Bool-cases (key == id)) [
      | inl z ↦ rw (z, keys_apart key k id n z) refl
      | inr z ↦ rw z (find-delete rest k id)
    ])
  ]
