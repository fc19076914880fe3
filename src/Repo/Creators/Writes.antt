-- ===== src/Repo/Creators/Writes.antt =====
-- What the statements that write the creators leave in the table.
use Prim.Native.String.{String}
use fetch_bilibili.Prelude.{
  ℕ, suc, ◌==◌, ◌≡◌, refl, arith, Bool, false, not, ◌&&◌, Option, none, some, [], ◌∷◌, first, any,
  change, every-append, every-keep, inl, inr, Bool-cases,
}
use fetch_bilibili.Repo.Models.{Creator}
use fetch_bilibili.World.{World, M, ◌>>=◌, return, call}
use fetch_bilibili.Invariants.{
  Preserves, IsAboutTables, Preserves-return, Preserves-bind, Preserves-call,
}
use fetch_bilibili.Repo.Creators.{
  has_key, inserted, merged, insert_row, upsert, upsert_row, upsert_found, create, create_row,
  update, update_status, delete_by_id, delete_row, with_status, accepts, with_defaults, update_row,
  overwritten,
}
use fetch_bilibili.Repo.Creators.Keys.{
  is_old, IsKeyed, IsQuiet, keyed-change, old-change, keyed-append, old-suc, keyed-keep, any-first,
}

merged-IsQuiet : (now : ℕ) (c : Creator) → IsQuiet (merged now c)
merged-IsQuiet now c = record {
  same_id = λ d. refl;
  same_platform = λ d. refl;
  same_uid = λ d. refl;
}

-- Changing rows without their keys, and adding one under a new key.
pub change-IsKeyed :
    (w : World) (p : Creator → Bool) (f : Creator → Creator)
    → IsQuiet f
    → IsKeyed w
    → IsKeyed (record w { creators = change p f w.creators })
change-IsKeyed w p f q k = record {
  keys = ground (arith, keyed-change p f w.creators q, k.keys);
  old = old-change w.next_creator_id p f w.creators q k.old;
}

pub insert_row-IsKeyed :
    (c : Creator) (w : World)
    → any (has_key c.platform c.uid) w.creators ≡ false
    → IsKeyed w
    → IsKeyed (insert_row c w).1
insert_row-IsKeyed c w n k =
    let d = inserted w.next_creator_id (w.outside.clock w.calls) c in
    record {
      keys = keyed-append w.next_creator_id w.creators d k.keys k.old n refl;
      old = ground (
        arith,
        every-append (is_old (suc w.next_creator_id)) w.creators (d ∷ []),
        old-suc w.next_creator_id w.creators k.old,
      );
    }

upsert_found-IsKeyed :
    (c : Creator) (o : Option Creator) (w : World)
    → first (has_key c.platform c.uid) w.creators ≡ o
    → IsKeyed w
    → IsKeyed (upsert_found c o w).1
upsert_found-IsKeyed c none w e k =
    insert_row-IsKeyed c w (any-first (has_key c.platform c.uid) w.creators e) k
upsert_found-IsKeyed c (some old) w e k =
    change-IsKeyed w (has_key c.platform c.uid) (merged (w.outside.clock w.calls) c)
      (merged-IsQuiet (w.outside.clock w.calls) c) k

pub upsert_row-IsKeyed : (c : Creator) (w : World) → IsKeyed w → IsKeyed (upsert_row c w).1
upsert_row-IsKeyed c w k = elim (Bool-cases (accepts c)) [
  | inl e ↦ rw e (upsert_found-IsKeyed c (first (has_key c.platform c.uid) w.creators) w refl k)
  | inr e ↦ rw e k
]

create_row-IsKeyed : (c : Creator) (w : World) → IsKeyed w → IsKeyed (create_row c w).1
create_row-IsKeyed c w k = elim (Bool-cases (not (accepts c))) [
  | inl e ↦ rw e k
  | inr e ↦ elim (Bool-cases (any (has_key c.platform c.uid) w.creators)) [
    | inl f ↦ rw (e, f) k
    | inr f ↦ rw (e, f) (insert_row-IsKeyed c w f k)
  ]
]

pub update_row-IsKeyed :
    (id : ℕ) (f : ℕ → Creator → Creator) (w : World)
    → ((now : ℕ) → IsQuiet (f now))
    → IsKeyed w
    → IsKeyed (update_row id f w).1
update_row-IsKeyed id f w q k =
    elim (Bool-cases (any (λ c. c.id == id && not (accepts (f 0 c))) w.creators)) [
      | inl e ↦ rw e k
      | inr e ↦ rw e (
          change-IsKeyed w (λ c. c.id == id) (f (w.outside.clock w.calls))
            (q (w.outside.clock w.calls)) k)
    ]

delete_row-IsKeyed : (id : ℕ) (w : World) → IsKeyed w → IsKeyed (delete_row id w).1
delete_row-IsKeyed id w k =
    elim (Bool-cases (any (λ v. v.creator_id == id) w.videos && any (λ c. c.id == id) w.creators)) [
      | inl e ↦ rw e k
      | inr e ↦ rw e (record {
        keys = keyed-keep (λ c. not (c.id == id)) w.creators k.keys;
        old = every-keep (is_old w.next_creator_id) (λ c. not (c.id == id)) w.creators k.old;
      })
    ]

pub IsKeyed-tables : IsAboutTables IsKeyed
IsKeyed-tables = record {
  no_calls = λ w n k. record { keys = k.keys; old = k.old };
  no_events = λ w es k. record { keys = k.keys; old = k.old };
}

-- The second call of a statement, which reads the id or the count.
and_read :
    {A : Type 0} (m : M A)
    → Preserves IsKeyed m
    → Preserves IsKeyed (call m >>= λ a. call (return a))
and_read m h =
    Preserves-bind IsKeyed _ _ (Preserves-call IsKeyed-tables m h)
      λ a. Preserves-call IsKeyed-tables (return a) (Preserves-return IsKeyed a)

pub upsert-IsKeyed : (c : Creator) → Preserves IsKeyed (upsert c)
unfolding upsert
upsert-IsKeyed c =
    and_read (upsert_row (with_defaults c))
      (record { holds = upsert_row-IsKeyed (with_defaults c) })

pub create-IsKeyed : (c : Creator) → Preserves IsKeyed (create c)
unfolding create
create-IsKeyed c =
    and_read (create_row (with_defaults c))
      (record { holds = create_row-IsKeyed (with_defaults c) })

pub delete_by_id-IsKeyed : (id : ℕ) → Preserves IsKeyed (delete_by_id id)
unfolding delete_by_id
delete_by_id-IsKeyed id = and_read (delete_row id) (record { holds = delete_row-IsKeyed id })

pub update_status-IsKeyed : (id : ℕ) (status : String) → Preserves IsKeyed (update_status id status)
unfolding update_status
update_status-IsKeyed id status =
    Preserves-call IsKeyed-tables (update_row id (with_status status)) (record {
      holds = λ w k.
          update_row-IsKeyed id (with_status status) w
            (λ now. record { same_id = λ d. refl; same_platform = λ d. refl; same_uid = λ d. refl })
            k;
    })

pub update-IsKeyed : (c : Creator) → Preserves IsKeyed (update c)
unfolding update
update-IsKeyed c = Preserves-call IsKeyed-tables (update_row c.id (overwritten c)) (record {
  holds = λ w k.
      update_row-IsKeyed c.id (overwritten c) w
        (λ now. record { same_id = λ d. refl; same_platform = λ d. refl; same_uid = λ d. refl }) k;
})

-- Every statement that writes the creators, whether it fails or not, keeps their ids and their
-- pairs of platform and uid unique, and their ids below the next one.
pub creators_stay-IsKeyed :
    (w : World)
    → IsKeyed w
    → ((c : Creator) → IsKeyed (upsert c w).1 × IsKeyed (create c w).1 × IsKeyed (update c w).1)
      × ((id : ℕ) (s : String) → IsKeyed (update_status id s w).1 × IsKeyed (delete_by_id id w).1)
creators_stay-IsKeyed w k = (
  λ c. ((upsert-IsKeyed c).holds w k, (create-IsKeyed c).holds w k, (update-IsKeyed c).holds w k),
  λ id s. ((update_status-IsKeyed id s).holds w k, (delete_by_id-IsKeyed id).holds w k),
)
