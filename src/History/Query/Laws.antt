-- ===== src/History/Query/Laws.antt =====
-- Reading the pages of src/history/query.ts one after the other reads the whole history.
use supabash_fs.Prelude.{
  ===_iff, ===_refl, Bool, Bool-cases, List, Option, Result, Text, [], any, any-append, ap,
  append-nil, append_assoc, arith, drop, drop-append, drop_last, false, inl, inr, last, length,
  length-append, ltb, ltb→lt, none, ok, refl, some, subst, suc, sym, take, zero, ℕ, ◌++◌, ◌+◌, ◌<◌,
  ◌===◌, ◌>>=◌, ◌∙◌, ◌∷◌, ◌≡◌, ◌≤◌, ◌⊎◌,
}
use supabash_fs.History.Records.{HistoryRecord}
use supabash_fs.History.Query.{history_start, index_after, page_from, page_of}

-- Records with a transaction each, and that transaction as the cursor.
abbrev pub IsHistory : List HistoryRecord → Type 0
IsHistory [] = Unit
IsHistory (r ∷ rs) =
    (any (λ (s : HistoryRecord). s.transaction_id === r.transaction_id) rs ≡ false)
    × (r.cursor ≡ r.transaction_id)
    × IsHistory rs

abbrev pub next_pages :
    (Option Text → Result (List HistoryRecord)) → Option Text → Result (List HistoryRecord)
next_pages read none = ok []
next_pages read (some cursor) = read (some cursor)

-- A client that asks for a page, and then for the next one as long as a page has a next cursor: at
-- most so many pages.
unfoldable pub read_all :
    List HistoryRecord → ℕ → Bool → ℕ → Option Text → Result (List HistoryRecord)
read_all records limit missing zero cursor = ok []
read_all records limit missing (suc n) cursor = do
  page ← page_of records limit cursor missing
  rest ← next_pages (read_all records limit missing n) page.next_cursor
  ok (page.records ++ rest)

index_after-append :
    (ys rest : List HistoryRecord) (x : HistoryRecord)
    → IsHistory (ys ++ x ∷ rest)
    → index_after (ys ++ x ∷ rest) x.transaction_id ≡ some (suc (length ys))
unfolding index_after
index_after-append [] rest x h = rw (===_refl x.transaction_id) refl
index_after-append (y ∷ ys) rest x (n, c, h) =
    let apart =
      any-append (λ (s : HistoryRecord). s.transaction_id === y.transaction_id) ys (x ∷ rest) in
    rw (index_after-append ys rest x h) (
      ground (
        arith,
        apart,
        ===_iff x.transaction_id y.transaction_id,
        ===_iff y.transaction_id x.transaction_id,
      ))

cursor-append :
    (ys rest : List HistoryRecord) (x : HistoryRecord)
    → IsHistory (ys ++ x ∷ rest)
    → x.cursor ≡ x.transaction_id
cursor-append [] rest x (n, c, h) = c
cursor-append (y ∷ ys) rest x (n, c, h) = cursor-append ys rest x h

take-drop {ℓ} : {A : Type ℓ} (n : ℕ) (xs : List A) → take n xs ++ drop n xs ≡ xs
take-drop zero xs = refl
take-drop (suc n) [] = refl
take-drop (suc n) (x ∷ xs) = ap (λ t. x ∷ t) (take-drop n xs)

-- A list is empty, or its last item stands behind the others.
last-cases :
    {A : Type 0} (xs : List A)
    → (xs ≡ []) ⊎ ((x : A) × (last xs ≡ some x) × (xs ≡ drop_last xs ++ x ∷ []))
last-cases [] = inl refl
last-cases (x ∷ []) = inr (x, refl, refl)
last-cases (x ∷ y ∷ ys) = elim (last-cases (y ∷ ys)) [
  | inl e ↦ cc
  | inr (z, l, e) ↦ inr (z, l, ap (λ t. x ∷ t) e)
]

length-split :
    {A : Type 0} (passed left : List A) (n : ℕ)
    → length (passed ++ left) ≡ length passed + length (take n left) + length (drop n left)
length-split passed left n = omega (
  arith,
  length-append passed left,
  length-append (take n left) (drop n left),
  ap length (take-drop n left),
)

empty : {A : Type 0} (xs : List A) → length xs ≤ 0 → xs ≡ []
empty [] h = refl
empty (x ∷ xs) h = absurd (omega arith)

take_empty : {A : Type 0} (n : ℕ) (xs : List A) → take (suc n) xs ≡ [] → xs ≡ []
take_empty n [] e = refl
take_empty n (x ∷ xs) e = cc

start_found :
    (records : List HistoryRecord) (cursor : Text) (missing : Bool) {n : ℕ}
    → index_after records cursor ≡ some n
    → history_start records (some cursor) missing ≡ ok n
unfolding history_start
start_found records cursor missing e = rw e refl

-- The first record behind a page is where its last record's cursor leads.
start-next :
    (passed page rest : List HistoryRecord) (missing : Bool) (x : HistoryRecord)
    → IsHistory (passed ++ (page ++ rest))
    → page ≡ drop_last page ++ x ∷ []
    → history_start (passed ++ (page ++ rest)) (some x.cursor) missing
      ≡ ok (length (passed ++ page))
unfolding history_start
start-next passed page rest missing x h e =
    let p = passed ++ drop_last page in
    let q =
      ap (λ t. passed ++ (t ++ rest)) e
      ∙ ap (λ t. passed ++ t) (append_assoc (drop_last page) (x ∷ []) rest)
      ∙ sym (append_assoc passed (drop_last page) (x ∷ rest)) in
    let h' = subst IsHistory q h in
    let found =
      subst (λ c. index_after (p ++ x ∷ rest) c ≡ some (suc (length p)))
        (sym (cursor-append p rest x h')) (index_after-append p rest x h') in
    ap (λ r. history_start r (some x.cursor) missing) q
    ∙ start_found (p ++ x ∷ rest) x.cursor missing found
    ∙ ap ok (
        omega (
          arith,
          length-append passed (drop_last page),
          length-append passed page,
          ap length e,
          length-append (drop_last page) (x ∷ []),
        ))

-- What is left from a start is read, if there is a page for each record of it.
read_all-left :
    (passed left : List HistoryRecord) (l : ℕ) (missing : Bool) (n : ℕ) (cursor : Option Text)
    → IsHistory (passed ++ left)
    → history_start (passed ++ left) cursor missing ≡ ok (length passed)
    → length left < n
    → read_all (passed ++ left) (suc l) missing n cursor ≡ ok left
unfolding read_all page_of page_from
read_all-left passed left l missing zero cursor h s k = absurd (omega arith)
read_all-left passed left l missing (suc n) cursor h s k =
    let page = take (suc l) left in
    let rest = drop (suc l) left in
    let d = drop-append passed left in
    let lengths = length-split passed left (suc l) in
    let whole = append_assoc passed page rest ∙ ap (λ t. passed ++ t) (take-drop (suc l) left) in
    elim (Bool-cases (ltb (length passed + length page) (length (passed ++ left)))) [
      | inr e ↦
          rw (s, d, e)
            (rw (append-nil page) (
              ap ok (
                sym (append-nil page)
                ∙ ap (λ t. page ++ t) (sym (empty rest (ground (arith, lengths))))
                ∙ take-drop (suc l) left)))
      | inl e ↦ elim (last-cases page) [
        | inl z ↦ absurd (
            omega (
              arith,
              ltb→lt (length passed + length page) (length (passed ++ left)) e,
              length-append passed left,
              ap length z,
              ap length (take_empty l left z),
            ))
        | inr (x, q, split_page) ↦
            rw (s, d, e, q)
              (rw
                (subst (λ r. read_all r (suc l) missing n (some x.cursor) ≡ ok rest) whole
                  (read_all-left (passed ++ page) rest l missing n (some x.cursor)
                    (subst IsHistory (sym whole) h)
                    (subst
                      (λ r. history_start r (some x.cursor) missing ≡ ok (length (passed ++ page)))
                      (sym (append_assoc passed page rest))
                      (start-next passed page rest missing x
                        (subst IsHistory (sym (ap (λ t. passed ++ t) (take-drop (suc l) left))) h)
                        split_page))
                    (omega (
                      arith,
                      lengths,
                      length-append passed left,
                      ap length split_page,
                      length-append (drop_last page) (x ∷ []),
                    ))))
                (ap ok (take-drop (suc l) left)))
      ]
    ]

-- On a history whose records have distinct transactions as their cursors, with a limit of at least
-- one record on a page, a client that starts without a cursor and follows the next cursors gets all
-- records, each once and in their order, with at most one page more than there are records.
pub read_all-records :
    (records : List HistoryRecord) (limit : ℕ) (missing : Bool)
    → IsHistory records
    → 1 ≤ limit
    → read_all records limit missing (suc (length records)) none ≡ ok records
read_all-records records zero missing h k = absurd (omega arith)
read_all-records records (suc l) missing h k =
    read_all-left [] records l missing (suc (length records)) none h (unfold history_start in refl)
      (omega arith)
