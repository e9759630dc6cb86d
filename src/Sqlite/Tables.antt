-- ===== src/Sqlite/Tables.antt =====
-- A table whose rows have different keys is the insertion-ordered map of its rows: what a statement
-- does to the table the map's operation does to the map.
use agentworth.Prelude.{
  ◌≡◌, refl, sym, ap, ◌∙◌, String, Bool, true, false, none, some, List, [], ◌∷◌, ◌++◌, map, str_eq,
  eq_iff, filter, find, any, arith, Bool-cases, inl, inr,
}
use agentworth.Prelude.Map.{Map, get, set, values}
use agentworth.Sqlite.{update_where, mapped}

pub map-append :
    {A B : Type 0} (f : A → B) (xs ys : List A) → map f (xs ++ ys) ≡ map f xs ++ map f ys
map-append f [] ys = refl
map-append f (x ∷ xs) ys = ap (λ zs. f x ∷ zs) (map-append f xs ys)

pub filter-map :
    {A B : Type 0} (p : B → Bool) (f : A → B) (xs : List A)
    → filter p (map f xs) ≡ map f (filter (λ x. p (f x)) xs)
filter-map p f [] = refl
filter-map p f (x ∷ xs) = ground (arith, filter-map p f xs)

module _ {R : Type 0} (key : R → String) where
  -- No two rows have one key.
  abbrev pub Unique : List R → Type 0
  Unique [] = Unit
  Unique (r ∷ rows) = (any (λ q. str_eq (key q) (key r)) rows ≡ false) × Unique rows

  any-key :
      (k l : String) (rows : List R)
      → k ≡ l
      → any (λ q. str_eq (key q) k) rows ≡ any (λ q. str_eq (key q) l) rows
  any-key k l rows e = ap (λ i. any (λ q. str_eq (key q) i) rows) e

  any-end :
      (k : String) (rows : List R) (r : R)
      → any (λ q. str_eq (key q) k) rows ≡ false
      → str_eq (key r) k ≡ false
      → any (λ q. str_eq (key q) k) (rows ++ r ∷ []) ≡ false
  any-end k [] r h e = ground arith
  any-end k (q ∷ rows) r h e = ground (arith, any-end k rows r)

  pub Unique-insert :
      (rows : List R) (r : R)
      → any (λ q. str_eq (key q) (key r)) rows ≡ false
      → Unique rows
      → Unique (rows ++ r ∷ [])
  Unique-insert [] r h u = (refl, tt)
  Unique-insert (q ∷ rows) r h u = (
    any-end (key q) rows r u.0 (ground (arith, eq_iff (key q) (key r), eq_iff (key r) (key q))),
    Unique-insert rows r (ground arith) u.1,
  )

  any-update :
      (p : R → Bool) (f : R → R) (k : String)
      → ((r : R) → key (f r) ≡ key r)
      → (rows : List R)
      → any (λ q. str_eq (key q) k) (update_where p f rows) ≡ any (λ q. str_eq (key q) k) rows
  any-update p f k same [] = refl
  any-update p f k same (r ∷ rows) = ground (arith, same r, any-update p f k same rows)

  pub Unique-update :
      (p : R → Bool) (f : R → R)
      → ((r : R) → key (f r) ≡ key r)
      → (rows : List R) → Unique rows
      → Unique (update_where p f rows)
  Unique-update p f same [] u = tt
  Unique-update p f same (r ∷ rows) u = (
    any-key _ (key r) (update_where p f rows) (ground (arith, same r))
        ∙ any-update p f (key r) same rows
        ∙ u.0,
    Unique-update p f same rows u.1,
  )

  pub update-none :
      (f : R → R) (k : String) (rows : List R)
      → any (λ q. str_eq (key q) k) rows ≡ false
      → update_where (λ q. str_eq (key q) k) f rows ≡ rows
  update-none f k [] h = refl
  update-none f k (r ∷ rows) h = ground (arith, update-none f k rows)

module _ {R V : Type 0} (key : R → String) (val : R → V) where
  abbrev pub table : List R → Map V
  table rows = map (λ r. (key r, val r)) rows

  pub get-table :
      (k : String) (rows : List R)
      → get k (table rows) ≡ mapped val (find (λ r. str_eq (key r) k) rows)
  unfolding get
  get-table k [] = refl
  get-table k (r ∷ rows) = ground (arith, get-table k rows)

  pub values-table : (rows : List R) → values (table rows) ≡ map val rows
  values-table [] = refl
  values-table (r ∷ rows) = ap (λ vs. val r ∷ vs) (values-table rows)

  pub table-insert :
      (r : R) (rows : List R)
      → any (λ q. str_eq (key q) (key r)) rows ≡ false
      → set (key r) (val r) (table rows) ≡ table (rows ++ r ∷ [])
  unfolding set
  table-insert r [] h = refl
  table-insert r (q ∷ rows) h = ground (arith, table-insert r rows)

  -- The row with the key, which is one, is the one that is written.
  pub table-update :
      (f : R → R) (k : String) (row : R) (rows : List R)
      → ((r : R) → key (f r) ≡ key r)
      → Unique key rows
      → find (λ r. str_eq (key r) k) rows ≡ some row
      → set k (val (f row)) (table rows) ≡ table (update_where (λ r. str_eq (key r) k) f rows)
  unfolding set
  table-update f k row [] same u h = cc
  table-update f k row (r ∷ rows) same u h = elim (Bool-cases (str_eq (key r) k)) [
    | inl it ↦
        let e : r ≡ row = ground (arith, h) in
        let rest =
          update-none key f k rows
            (any-key key k (key r) rows (sym ((eq_iff (key r) k).0 it)) ∙ u.0) in
        rw (it, rest, same r) (ap (λ q. (key r, val (f q)) ∷ table rows) (sym e))
    | inr other ↦
        rw other
          (ap (λ m. (key r, val r) ∷ m) (table-update f k row rows same u.1 (ground (arith, h))))
  ]

  pub find-none-any :
      (k : String) (rows : List R)
      → find (λ r. str_eq (key r) k) rows ≡ none
      → any (λ r. str_eq (key r) k) rows ≡ false
  find-none-any k [] h = refl
  find-none-any k (r ∷ rows) h = ground (arith, find-none-any k rows)

  pub find-some-any :
      (k : String) (row : R) (rows : List R)
      → find (λ r. str_eq (key r) k) rows ≡ some row
      → any (λ r. str_eq (key r) k) rows ≡ true
  find-some-any k row [] h = cc
  find-some-any k row (r ∷ rows) h = ground (arith, find-some-any k row rows)
