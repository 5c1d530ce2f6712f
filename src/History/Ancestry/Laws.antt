-- ===== src/History/Ancestry/Laws.antt =====
-- The chain of src/history/ancestry.ts ends.
use supabash_fs.Prelude.{
  ===_iff, All, Bool, Bool-cases, List, Option, Result, SupabashError, Text, [], arith, err, false,
  includes, inl, inr, is_some, keep, length, none, not, ok, ok_inj, refl, some, suc, true, zero, ℕ,
  ◌+◌, ◌<◌, ◌===◌, ◌∷◌, ◌≡◌, ◌≤◌, ◌⊎◌,
}
use supabash_fs.Prelude.Dict.{Dict, get}
use supabash_fs.History.Ancestry.{
  Fueled, by_revision, chain_from, chain_step, parent_of_link, prepend, retained_chain,
}

abbrev pub Distinct : List Text → Type 0
Distinct [] = Unit
Distinct (x ∷ xs) = (includes xs x ≡ false) × Distinct xs

abbrev without : Text → List Text → List Text
without x ys = keep (λ y. not (y === x)) ys

without_le : (x : Text) (ys : List Text) → length (without x ys) ≤ length ys
without_le x [] = omega arith
without_le x (y ∷ ys) = ground (arith, without_le x ys)

without_lt :
    (x : Text) (ys : List Text) → includes ys x ≡ true → suc (length (without x ys)) ≤ length ys
without_lt x [] h = ground arith
without_lt x (y ∷ ys) h = elim (Bool-cases (y === x)) [
  | inl e ↦ rw e (omega (arith, without_le x ys))
  | inr e ↦ rw e (omega (arith, without_lt x ys (ground arith)))
]

includes-without :
    (x z : Text) (ys : List Text)
    → (x === z) ≡ false
    → includes ys z ≡ true
    → includes (without x ys) z ≡ true
includes-without x z [] e h = h
includes-without x z (y ∷ ys) e h =
    ground (arith, includes-without x z ys e, ===_iff y x, ===_iff y z, ===_iff x z)

All-without :
    (x : Text) (xs ys : List Text)
    → includes xs x ≡ false
    → All (λ z. includes ys z ≡ true) xs
    → All (λ z. includes (without x ys) z ≡ true) xs
All-without x [] ys n h = tt
All-without x (z ∷ xs) ys n (p, h) = (
  includes-without x z ys (ground (arith, ===_iff z x, ===_iff x z)) p,
  All-without x xs ys (ground arith) h,
)

-- Distinct texts among others are not more than these.
pub length-Distinct :
    (xs ys : List Text) → Distinct xs → All (λ z. includes ys z ≡ true) xs → length xs ≤ length ys
length-Distinct [] ys d h = omega arith
length-Distinct (x ∷ xs) ys (n, d) (p, h) =
    omega (arith, without_lt x ys p, length-Distinct xs (without x ys) d (All-without x xs ys n h))

prepend-is_some :
    {A : Type 0} (x : A) (r : Fueled (List A)) → is_some r ≡ true → is_some (prepend x r) ≡ true
prepend-is_some x none h = h
prepend-is_some x (some (ok xs)) h = refl
prepend-is_some x (some (err e)) h = refl

module _ {T : Type 0} (revision : T → Text) (parent : T → Option Text)
    (link : Text → Result (Option (Option Text))) where
  -- The revisions that have a record or a stored link.
  pub record IsKnown (records : Dict T) (known : List Text) : Type 0 where
    pub recorded : (r : Text) → includes known r ≡ false → get records r ≡ none
    pub linked :
        (r : Text)
        → includes known r ≡ false
        → (link r ≡ ok none) ⊎ ((e : SupabashError) × (link r ≡ err e))

  -- The step ends, if the rest does from a revision that is known and not seen, and from none.
  step-is_some :
      (rest : Option Text → Fueled (List T)) (b : Bool) (found : Option T)
      (stored : Result (Option (Option Text)))
      → ((b ≡ true)
          ⊎ (((o : Option Text) → is_some (rest o) ≡ true)
              ⊎ ((found ≡ none)
                  × (is_some (rest none) ≡ true)
                  × ((stored ≡ ok none) ⊎ ((e : SupabashError) × (stored ≡ err e))))))
      → is_some (chain_step revision parent link rest b found stored) ≡ true
  step-is_some rest true found stored h = refl
  step-is_some rest false (some x) stored (inl e) = cc
  step-is_some rest false (some x) stored (inr (inl h)) =
      prepend-is_some x (rest (parent x)) (h (parent x))
  step-is_some rest false (some x) stored (inr (inr (e, _, _))) = cc
  step-is_some rest false none stored (inl e) = cc
  step-is_some rest false none (err e) (inr h) = refl
  step-is_some rest false none (ok l) (inr (inl h)) = h (parent_of_link l)
  step-is_some rest false none (ok l) (inr (inr (_, h, inl e))) = rw (ok_inj e) h
  step-is_some rest false none (ok l) (inr (inr (_, h, inr (_, e)))) = cc

  chain_none :
      (records : Dict T) (n : ℕ) (seen : List Text)
      → is_some (chain_from revision parent link records n seen none) ≡ true
  unfolding chain_from
  chain_none records n seen = refl

  chain-is_some :
      (records : Dict T) (known : List Text) (n : ℕ) (seen : List Text) (head : Option Text)
      → IsKnown records known
      → Distinct seen
      → All (λ z. includes known z ≡ true) seen
      → suc (length known) < n + length seen
      → is_some (chain_from revision parent link records n seen head) ≡ true
  unfolding chain_from
  chain-is_some records known n seen none k d h l = refl
  chain-is_some records known zero seen (some r) k d h l =
      absurd (omega (arith, length-Distinct seen known d h))
  chain-is_some records known (suc n) seen (some r) k d h l =
      let go =
        step-is_some (chain_from revision parent link records n (r ∷ seen)) (includes seen r)
          (get records r) (link r) in
      elim (Bool-cases (includes seen r)) [
        | inl s ↦ go (inl s)
        | inr s ↦ elim (Bool-cases (includes known r)) [
          | inl t ↦ go (
              inr (
                inl
                  (λ o. chain-is_some records known n (r ∷ seen) o k (s, d) (t, h) (omega arith))))
          | inr t ↦ go (inr (inr (k.recorded r t, chain_none records n (r ∷ seen), k.linked r t)))
        ]
      ]

  -- With fuel for two more rounds than there are revisions with a record or a stored link, the walk
  -- from any head ends, on cyclic histories too.
  pub retained_chain-ends :
      (records : List T) (known : List Text) (head : Option Text)
      → IsKnown (by_revision revision parent link records) known
      → is_some (retained_chain revision parent link (suc (suc (length known))) records head) ≡ true
  unfolding retained_chain
  retained_chain-ends records known head k =
      chain-is_some (by_revision revision parent link records) known (suc (suc (length known))) []
        head k tt tt (omega arith)
