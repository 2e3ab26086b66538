-- ===== src/Jobs/Table/Invariant.antt =====
-- The tables that statements can reach.
use akasha_ingestion.Base.{
  ◌≤◌, Bool, false, Option, none, some, List, [], ◌∷◌, String, ◌≡◌, refl, sym, subst, inl, inr,
  arith, eq_iff, leb, ◌==◌, string_eq, any, count, Bool-cases, count-append,
}
use akasha_ingestion.Base.Dict.{values, lookup, insert, lookup-insert}
use akasha_ingestion.Base.Dict.Values.{values-insert_new, count-insert_same}
use akasha_ingestion.Jobs.Table.Defs.{
  JobRow, JobTable, Result, ok, err, active_for, indexed, update_found,
}

pub record IsValid (t : JobTable) : Type 0 where
  pub stored : (id : String) (row : JobRow) → lookup id t ≡ some row → row.id ≡ id
  pub unique : (key : String) → count (active_for key) (values t) ≤ 1

abbrev pub Keeps : {A : Type 0} → (JobTable → Type 0) → Result (A × JobTable) → Type 0
Keeps P (ok (a, t)) = P t
Keeps P (err e) = Unit

-- A write that keeps the identity of the row.
abbrev pub KeepsIdentity : (JobRow → JobRow) → Type 0
KeepsIdentity f =
    (row : JobRow) → ((f row).id ≡ row.id) × ((f row).idempotency_key ≡ row.idempotency_key)

pub none-any : (p : JobRow → Bool) (rows : List JobRow) → any p rows ≡ false → count p rows ≡ 0
none-any p [] h = refl
none-any p (row ∷ rows) h = ground (arith, none-any p rows)

module _ (t : JobTable) (v : IsValid t) where
  -- The written table is looked at after the index let it pass.
  written-IsValid :
      (f : JobRow → JobRow) (keeps : KeepsIdentity f) (id : String) (row : JobRow)
      → lookup id t ≡ some row
      → count (active_for (f row).idempotency_key) (values (insert id (f row) t)) ≤ 1
      → IsValid (insert id (f row) t)
  written-IsValid f keeps id row found h = record {
    stored = λ j r e. ground (
      arith,
      lookup-insert id j (f row) t,
      eq_iff id j,
      v.stored id row,
      v.stored j r,
      keeps row,
    );
    unique = λ key. elim (Bool-cases ((f row).idempotency_key == key)) [
      | inl hit ↦
          subst (λ k. count (active_for k) (values (insert id (f row) t)) ≤ 1) ((eq_iff _ _).0 hit)
            h
      | inr miss ↦
          subst (λ n. n ≤ 1)
            (sym (
              count-insert_same (active_for key) id (f row) row t found
                (ground (arith, keeps row))))
            (v.unique key)
    ];
  }

  indexed-IsValid :
      (row : JobRow) (u : JobTable)
      → (count (active_for row.idempotency_key) (values u) ≤ 1 → IsValid u)
      → Keeps IsValid (indexed row u)
  indexed-IsValid row u h =
      elim (Bool-cases (leb (count (active_for row.idempotency_key) (values u)) 1)) [
        | inl fits ↦ rw fits (h (ground arith))
        | inr more ↦ rw more tt
      ]

  pub update_found-IsValid :
      (f : JobRow → JobRow) (keeps : KeepsIdentity f) (id : String) (o : Option JobRow)
      → lookup id t ≡ o
      → Keeps IsValid (update_found o id f t)
  update_found-IsValid f keeps id none found = tt
  update_found-IsValid f keeps id (some row) found =
      indexed-IsValid (f row) (insert id (f row) t) (written-IsValid f keeps id row found)

  pub inserted-IsValid :
      (row : JobRow)
      → lookup row.id t ≡ none
      → any (active_for row.idempotency_key) (values t) ≡ false
      → IsValid (insert row.id row t)
  inserted-IsValid row fresh free = record {
    stored = λ j r e. ground (arith, lookup-insert row.id j row t, eq_iff row.id j, v.stored j r);
    unique = λ key.
        rw
          (
            values-insert_new row.id row t fresh,
            count-append (active_for key) (values t) (row ∷ []),
          )
          (ground (
            arith,
            v.unique key,
            eq_iff row.idempotency_key key,
            none-any (active_for row.idempotency_key) (values t),
          ));
  }
