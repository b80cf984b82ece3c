-- ===== src/Orm/Batches/Complete.antt =====
-- The loops end for a positive batch size, having handed over every object once, in its place.
use api_template.Base.{
  ℕ, zero, suc, ◌+◌, ◌-◌, ◌<◌, ◌≤◌, min, ◌≡◌, refl, ap, sym, ◌∙◌, Option, some, List, [], ◌∷◌, ◌++◌,
  map, length, take, drop, ltb, ltb→lt, All, arith, Bool-cases, inl, inr,
}
use api_template.Orm.Batches.{after, batch_create_from_dict, batch_save}

abbrev pub flat : {A : Type 0} → List (List A) → List A
flat [] = []
flat (xs ∷ xss) = xs ++ flat xss

take-drop : {A : Type 0} (n : ℕ) (xs : List A) → take n xs ++ drop n xs ≡ xs
take-drop zero xs = refl
take-drop (suc n) [] = refl
take-drop (suc n) (x ∷ xs) = ap (λ t. x ∷ t) (take-drop n xs)

drop_none : {A : Type 0} (n : ℕ) → drop {A = A} n [] ≡ []
drop_none zero = refl
drop_none (suc n) = refl

drop-drop : {A : Type 0} (m n : ℕ) (xs : List A) → drop (m + n) xs ≡ drop n (drop m xs)
drop-drop zero n xs = ap (λ k. drop k xs) (let e : 0 + n ≡ n = omega arith in e)
drop-drop (suc m) n [] = drop_none (suc m + n) ∙ sym (drop_none n)
drop-drop (suc m) n (x ∷ xs) =
    ap (λ k. drop k (x ∷ xs)) (let e : suc m + n ≡ suc (m + n) = omega arith in e)
    ∙ drop-drop m n xs

drop_all : {A : Type 0} (n : ℕ) (xs : List A) → length xs ≤ n → drop n xs ≡ []
drop_all zero [] h = refl
drop_all zero (x ∷ xs) h = absurd (omega arith)
drop_all (suc n) [] h = refl
drop_all (suc n) (x ∷ xs) h = drop_all n xs (omega arith)

length-take : {A : Type 0} (n : ℕ) (xs : List A) → length (take n xs) ≤ n
length-take zero xs = omega arith
length-take (suc n) [] = omega arith
length-take (suc n) (x ∷ xs) = omega (arith, length-take n xs)

map-append : {A B : Type 0} (f : A → B) (xs ys : List A) → map f (xs ++ ys) ≡ map f xs ++ map f ys
map-append f [] ys = refl
map-append f (x ∷ xs) ys = ap (λ t. f x ∷ t) (map-append f xs ys)

map_self : {A : Type 0} (xs : List A) → map (λ x. x) xs ≡ xs
map_self [] = refl
map_self (x ∷ xs) = ap (λ t. x ∷ t) (map_self xs)

length-map : {A B : Type 0} (f : A → B) (xs : List A) → length (map f xs) ≡ length xs
length-map f [] = refl
length-map f (x ∷ xs) = omega (arith, length-map f xs)

-- The calls of a loop that has come to its end: they hold `xs`, each of one object at least and of
-- `size` at most.
abbrev pub Handed : {A : Type 0} → (size : ℕ) → List A → Option (List (List A)) → Type 0
Handed {A} size xs r =
    (calls : List (List A)) × (r ≡ some calls)
    × (flat calls ≡ xs)
    × All (λ batch. (0 < length batch) × (length batch ≤ size)) calls

length-take-min : {A : Type 0} (n : ℕ) (xs : List A) → n ≤ length xs → length (take n xs) ≡ n
length-take-min zero xs h = refl
length-take-min (suc n) [] h = absurd (omega arith)
length-take-min (suc n) (x ∷ xs) h = ap suc (length-take-min n xs (omega arith))

length-drop : {A : Type 0} (n : ℕ) (xs : List A) → length (drop n xs) ≡ length xs - n
length-drop zero xs = omega arith
length-drop (suc n) [] = omega arith
length-drop (suc n) (x ∷ xs) = omega (arith, length-drop n xs)

hand_one :
    {A : Type 0} (size : ℕ) (batch rest : List A) (r : Option (List (List A)))
    → 0 < length batch
    → length batch ≤ size
    → Handed size rest r
    → Handed size (batch ++ rest) (after batch r)
hand_one size batch rest r some_in fits (calls, e, all_in, sizes) =
    (batch ∷ calls, rw e refl, ap (λ t. batch ++ t) all_in, ((some_in, fits), sizes))

module _ {Item Model : Type 0} (make : Item → Model) (size : ℕ) (positive : 0 < size) where
  loop_hands :
      (fuel : ℕ) (objs : List Item) (offset : ℕ)
      → length objs < fuel + offset
      → offset ≤ length objs
      → Handed size
          (map make (drop offset objs))
          (batch_create_from_dict make fuel size objs offset)
  unfolding batch_create_from_dict
  loop_hands zero objs offset enough within = absurd (omega arith)
  loop_hands (suc fuel) objs offset enough within = elim (Bool-cases (ltb offset (length objs))) [
    | inr done ↦ rw (done, drop_all offset objs (ground arith)) ([], refl, refl, tt)
    | inl more ↦
        let left : ℕ = length objs - offset in
        let n : ℕ = min size (length objs - offset) in
        let below : offset < length objs = ltb→lt offset (length objs) more in
        let some_left : 0 < n = omega arith in
        let fits : n ≤ left = omega arith in
        let ih = loop_hands fuel objs (offset + n) (omega arith) (omega arith) in
        let long : length (take n (drop offset objs)) ≡ n =
          length-take-min n (drop offset objs) (omega (arith, length-drop offset objs)) in
        let long_made : length (map make (take n (drop offset objs))) ≡ n =
          length-map make (take n (drop offset objs)) ∙ long in
        let whole : map make (take n (drop offset objs)) ++ map make (drop (offset + n) objs)
            ≡ map make (drop offset objs) =
          ap (λ t. map make (take n (drop offset objs)) ++ map make t) (drop-drop offset n objs)
          ∙ sym (map-append make (take n (drop offset objs)) (drop n (drop offset objs)))
          ∙ ap (map make) (take-drop n (drop offset objs)) in
        let here =
          hand_one size (map make (take n (drop offset objs))) (map make (drop (offset + n) objs))
            (batch_create_from_dict make fuel size objs (offset + n)) (omega arith) (omega arith)
            ih in
        rw (more, ← whole) here
  ]

batch_save_lem :
    {Model : Type 0} (fuel size : ℕ) (objs : List Model) (offset : ℕ)
    → batch_save fuel size objs offset ≡ batch_create_from_dict (λ x. x) fuel size objs offset
unfolding batch_save batch_create_from_dict
batch_save_lem zero size objs offset = refl
batch_save_lem (suc fuel) size objs offset =
    rw
      (
        map_self (take (min size (length objs - offset)) (drop offset objs)),
        batch_save_lem fuel size objs (offset + min size (length objs - offset)),
      )
      refl

-- With a positive batch size, the loops end after fewer rounds than there are objects and one more,
-- and hand to the session every object once, in order, in calls of one object at least and of no
-- more than a batch: the models built from the dicts, or the given models.
pub batches-hand_over :
    {Item Model : Type 0} (make : Item → Model) (size fuel : ℕ) (objs : List Item)
    (models : List Model)
    → 0 < size
    → length objs < fuel
    → length models < fuel
    → Handed size (map make objs) (batch_create_from_dict make fuel size objs 0)
      × Handed size models (batch_save fuel size models 0)
batches-hand_over make size fuel objs models positive p q = (
  loop_hands make size positive fuel objs 0 (omega arith) (omega arith),
  let saved = loop_hands (λ x. x) size positive fuel models 0 (omega arith) (omega arith) in
      rw (batch_save_lem fuel size models 0) (rw (map_self models) at saved),
)
