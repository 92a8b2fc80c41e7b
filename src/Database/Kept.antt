-- ===== src/Database/Kept.antt =====
-- No transaction is lost between the two databases.
use my_linux_pbs.Base.{
  ◌≡◌, refl, Bool, true, false, Option, List, [], ◌∷◌, ◌++◌, if◌then◌else◌, Bytes, All,
}
use my_linux_pbs.Base.Int.{ℤ}
use my_linux_pbs.Station.State.{Entry, Exit}
use my_linux_pbs.Station.Env.{StationType}
use my_linux_pbs.Database.Rows.{Store}
use my_linux_pbs.Database.Save.{Links, Saved, insert_entry_trans, insert_exit_trans}
use my_linux_pbs.Database.Move.{Moves, move_offline_trans_to_central}
use my_linux_pbs.Database.Keeps.{
  Key, entry_kept, exit_kept, is_saved, move-Keeps, insert_entry_trans-Saves,
  insert_exit_trans-Saves,
}

-- The number and the time of what was saved.
abbrev pub entry_keys : Saved Entry → List Key
entry_keys o =
    if is_saved o.answer then (o.transaction.iu_tk_no, o.transaction.entry_time) ∷ [] else []

abbrev pub exit_keys : Saved Exit → List Key
exit_keys o = if is_saved o.answer then (o.transaction.iu_no, o.transaction.exit_time) ∷ [] else []

-- The stores that saving and moving reach, whatever the databases answer, with the keys of all that was
-- saved.
pub data Reach (first : Store) : List Key → List Key → Store → Type 0 where
  start : Reach first [] [] first
  entry_saved :
      {es xs : List Key} {s : Store}
      → Reach first es xs s
      → (stoi : Bytes → Option ℤ) (k : Links) (now trans_id : Bytes) (e : Entry)
      → Reach first
          (entry_keys (insert_entry_trans stoi k now trans_id e s) ++ es)
          xs
          (insert_entry_trans stoi k now trans_id e s).store
  exit_saved :
      {es xs : List Key} {s : Store}
      → Reach first es xs s
      → (k : Links) (trans_id : Bytes) (x : Exit)
      → Reach first es
          (exit_keys (insert_exit_trans k trans_id x s) ++ xs)
          (insert_exit_trans k trans_id x s).store
  moved :
      {es xs : List Key} {s : Store}
      → Reach first es xs s
      → (t : StationType) (a : Moves) → Reach first es xs (move_offline_trans_to_central t a s)

-- All keys stand where a step keeps them.
All-Keeps :
    (f g : Key → Bool) (ks : List Key)
    → ((k : Key) → f k ≡ true → g k ≡ true)
    → All (λ k. f k ≡ true) ks
    → All (λ k. g k ≡ true) ks
All-Keeps f g [] p _ = tt
All-Keeps f g (k ∷ ks) p (h, hs) = (p k h, All-Keeps f g ks p hs)

All-if :
    (P : Key → Type 0) (b : Bool) (k : Key) (ks : List Key)
    → (b ≡ true → P k)
    → All P ks
    → All P ((if b then k ∷ [] else []) ++ ks)
All-if P true k ks p h = (p refl, h)
All-if P false k ks p h = h

-- However saving and moving follow each other and whatever the databases answer: every entry and every
-- exit for which a success was answered has a row with its number and its time in the central table or
-- in the local one.
pub Reach-Kept :
    {first : Store} {es xs : List Key} {s : Store}
    → Reach first es xs s
    → All (λ k. entry_kept s k ≡ true) es × All (λ k. exit_kept s k ≡ true) xs
Reach-Kept start = (tt, tt)
Reach-Kept (entry_saved {es = es} {xs = xs} {s = s} r stoi k now trans_id e) =
    let v = insert_entry_trans-Saves stoi k now trans_id e s in
    let (p, q) = Reach-Kept r in
    (All-if _ _ _ es v.adds (All-Keeps _ _ es v.keeps.entries p), All-Keeps _ _ xs v.keeps.exits q)
Reach-Kept (exit_saved {es = es} {xs = xs} {s = s} r k trans_id x) =
    let v = insert_exit_trans-Saves k trans_id x s in
    let (p, q) = Reach-Kept r in
    (All-Keeps _ _ es v.keeps.entries p, All-if _ _ _ xs v.adds (All-Keeps _ _ xs v.keeps.exits q))
Reach-Kept (moved {es = es} {xs = xs} {s = s} r t a) =
    let v = move-Keeps t a s in
    let (p, q) = Reach-Kept r in (All-Keeps _ _ es v.entries p, All-Keeps _ _ xs v.exits q)
