-- ===== src/Database/Keeps.antt =====
-- Each operation of the databases keeps the keys that are there.
use my_linux_pbs.Base.{
  ℕ, ◌+◌, ◌≡◌, refl, ap, ◌∙◌, Bool, true, false, not, ◌&&◌, ◌||◌, Option, List, [], ◌∷◌,
  if◌then◌else◌, Bytes, bytes_eq, is_empty, arith,
}
use my_linux_pbs.Base.Int.{ℤ, pos}
use my_linux_pbs.Station.State.{Entry, Exit}
use my_linux_pbs.Station.Env.{StationType, entry_station, exit_station}
use my_linux_pbs.Database.Rows.{
  EntryTrans, ExitTrans, Tables, Store, entry_is, exit_is, to_central, to_local, from_local,
}
use my_linux_pbs.Database.Save.{
  DbError, central_fail, local_fail, db_success, central_success, local_success, Links, Saved,
  insert_entry_trans, insert_exit_trans, stamped, entry_row, exit_row, insert_entry_local,
  insert_entry_central, insert_exit_local, insert_exit_central, reaches_local, is_one, is_minus_one,
  capped,
}
use my_linux_pbs.Database.Move.{
  RowAnswers, Moves, moved_entry, moved_exit, delete_local_entry, delete_local_exit,
  delete_before_insert, insert_to_movement_trans, move_entry, move_exit, each, selected,
  move_entries, move_exits, move_offline_trans_to_central,
}
use my_linux_pbs.Database.Keys.{
  bytes_eq_refl, kept, kept-to_central, kept-to_local, kept-moved, entry_apart, exit_apart,
}

-- A number and a time.
abbrev pub Key : Type 0
Key = Bytes × Bytes

-- A row of the key is in the central table or in the local one.
abbrev pub entry_kept : Store → Key → Bool
entry_kept s k = kept (entry_is k.0 k.1) s.entries

abbrev pub exit_kept : Store → Key → Bool
exit_kept s k = kept (exit_is k.0 k.1) s.exits

-- Whether the caller is told that the transaction is saved.
abbrev pub is_saved : DbError → Bool
is_saved central_fail = false
is_saved local_fail = false
is_saved db_success = true
is_saved central_success = true
is_saved local_success = true

-- A step that keeps every key of both kinds.
pub record Keeps (s t : Store) : Type 0 where
  pub entries : (k : Key) → entry_kept s k ≡ true → entry_kept t k ≡ true
  pub exits : (k : Key) → exit_kept s k ≡ true → exit_kept t k ≡ true

Keeps-trans : {s t u : Store} → Keeps s t → Keeps t u → Keeps s u
Keeps-trans p q = record {
  entries = λ k h. q.entries k (p.entries k h);
  exits = λ k h. q.exits k (p.exits k h);
}

Keeps-refl : (s : Store) → Keeps s s
Keeps-refl s = record { entries = λ k h. h; exits = λ k h. h }

-- Equal tables.
Keeps-same : {s t : Store} → t.entries ≡ s.entries → t.exits ≡ s.exits → Keeps s t
Keeps-same {s = s} {t = t} p q = record {
  entries = λ k h. ap (λ (u : Tables EntryTrans). kept (entry_is k.0 k.1) u) p ∙ h;
  exits = λ k h. ap (λ (u : Tables ExitTrans). kept (exit_is k.0 k.1) u) q ∙ h;
}

or_right : (b c : Bool) → c ≡ true → (b || c) ≡ true
or_right b c h = ground arith

or_left : (b c : Bool) → b ≡ true → (b || c) ≡ true
or_left b c h = ground arith

move_entry-Keeps : (a : RowAnswers) (r : EntryTrans) (s : Store) → Keeps s (move_entry a r s)
unfolding move_entry delete_local_entry
move_entry-Keeps a r s = at a.inserted a.deleted
  where
    at : (b c : Bool) → Keeps s (move_entry (record a { inserted = b; deleted = c }) r s)
    at false c = Keeps-same refl refl
    at true true = record {
      entries = λ k h.
          kept-moved (entry_is k.0 k.1) _ (moved_entry r) s.entries (entry_apart k.0 k.1 r) h;
      exits = λ k h. h;
    }
    at true false = record {
      entries =
          λ k h. kept-to_central (entry_is k.0 k.1) (moved_entry r) s.entries (or_right _ _ h);
      exits = λ k h. h;
    }

insert_to_movement_trans-same :
    (b : Bool) (r : ExitTrans) (s : Store)
    → ((insert_to_movement_trans b r s).entries ≡ s.entries)
      × ((insert_to_movement_trans b r s).exits ≡ s.exits)
unfolding insert_to_movement_trans
insert_to_movement_trans-same true r s = (refl, refl)
insert_to_movement_trans-same false r s = (refl, refl)

delete_before_insert-same :
    (b : Bool) (r : ExitTrans) (s : Store)
    → ((delete_before_insert b r s).entries ≡ s.entries)
      × ((delete_before_insert b r s).exits ≡ s.exits)
unfolding delete_before_insert
delete_before_insert-same true r s = (refl, refl)
delete_before_insert-same false r s = (refl, refl)

-- The row stands in the central table; then it may leave the local one.
delete_local_exit-Keeps :
    (b : Bool) (r : ExitTrans) (s u : Store)
    → u.entries ≡ s.entries
    → u.exits ≡ to_central (moved_exit r) s.exits
    → Keeps s (record (delete_local_exit b r u) { remote_error = false })
unfolding delete_local_exit moved_exit
delete_local_exit-Keeps true r s u p q = record {
  entries = λ k h. ap (λ t. kept (entry_is k.0 k.1) t) p ∙ h;
  exits = λ k h.
      ap
        (λ (t : Tables ExitTrans).
          kept (exit_is k.0 k.1) (from_local (exit_is r.iu_tk_no r.time) t))
        q
      ∙ kept-moved (exit_is k.0 k.1) (exit_is r.iu_tk_no r.time) (moved_exit r) s.exits
          (exit_apart k.0 k.1 r) h;
}
delete_local_exit-Keeps false r s u p q = record {
  entries = λ k h. ap (λ t. kept (entry_is k.0 k.1) t) p ∙ h;
  exits = λ k h.
      ap (λ (t : Tables ExitTrans). kept (exit_is k.0 k.1) t) q
      ∙ kept-to_central (exit_is k.0 k.1) (moved_exit r) s.exits (or_right _ _ h);
}

move_exit-Keeps : (a : RowAnswers) (r : ExitTrans) (s : Store) → Keeps s (move_exit a r s)
unfolding move_exit
move_exit-Keeps a r s = at a.inserted
  where
    t : Store
    t = record s { exits = to_central (moved_exit r) s.exits }

    d : Store
    d = delete_before_insert a.movement_deleted r t

    at : (b : Bool) → Keeps s (move_exit (record a { inserted = b }) r s)
    at false = Keeps-same refl refl
    at true =
        delete_local_exit-Keeps a.deleted r s (insert_to_movement_trans a.movement_inserted r d)
          ((insert_to_movement_trans-same a.movement_inserted r d).0
            ∙ (delete_before_insert-same a.movement_deleted r t).0)
          ((insert_to_movement_trans-same a.movement_inserted r d).1
            ∙ (delete_before_insert-same a.movement_deleted r t).1)

each-Keeps :
    {A : Type 0} (f : RowAnswers → A → Store → Store)
    → ((a : RowAnswers) (r : A) (s : Store) → Keeps s (f a r s))
    → (row : ℕ → RowAnswers) (j : ℕ) (rs : List A) (s : Store) → Keeps s (each f row j rs s)
each-Keeps f p row j [] s = Keeps-refl s
each-Keeps f p row j (r ∷ rs) s =
    Keeps-trans (p (row j) r s) (each-Keeps f p row (j + 1) rs (f (row j) r s))

if-Keeps : {s t u : Store} (b : Bool) → Keeps s t → Keeps s u → Keeps s (if b then t else u)
if-Keeps true p q = p
if-Keeps false p q = q

flagged-Keeps : (b : Bool) (s : Store) → Keeps s (record s { local_error = b })
flagged-Keeps b s = Keeps-same refl refl

pub move-Keeps :
    (t : StationType) (a : Moves) (s : Store) → Keeps s (move_offline_trans_to_central t a s)
unfolding move_offline_trans_to_central move_entries move_exits
move-Keeps entry_station a s =
    if-Keeps (a.counted && not (is_empty s.entries.local))
      (Keeps-trans (flagged-Keeps (not a.selects) s) (
        each-Keeps move_entry move_entry-Keeps a.row 0
          (selected a.selects (a.entries_of s.entries.local))
          (record s { local_error = not a.selects })))
      (flagged-Keeps (not a.counted) s)
move-Keeps exit_station a s =
    if-Keeps (a.counted && not (is_empty s.exits.local))
      (Keeps-trans (flagged-Keeps (not a.selects) s) (
        each-Keeps move_exit move_exit-Keeps a.row 0 (selected a.selects (a.exits_of s.exits.local))
          (record s { local_error = not a.selects })))
      (flagged-Keeps (not a.counted) s)

-- Saving keeps the keys that are there, and adds that of the transaction where it answers a success.
pub record Saves (s : Store) (o : Saved Entry) : Type 0 where
  pub keeps : Keeps s o.store
  pub adds :
      is_saved o.answer ≡ true
      → entry_kept o.store (o.transaction.iu_tk_no, o.transaction.entry_time) ≡ true

pub record SavesExit (s : Store) (o : Saved Exit) : Type 0 where
  pub keeps : Keeps s o.store
  pub adds :
      is_saved o.answer ≡ true
      → exit_kept o.store (o.transaction.iu_no, o.transaction.exit_time) ≡ true

same_key : (iu t : Bytes) → (bytes_eq iu iu && bytes_eq t t) ≡ true
same_key iu t = let p = bytes_eq_refl iu in let q = bytes_eq_refl t in ground arith

insert_entry_central-Saves :
    (k : Links) (trans_id : Bytes) (e : Entry) (s : Store)
    → Saves s (insert_entry_central k trans_id e s)
unfolding insert_entry_central entry_row
insert_entry_central-Saves k trans_id e s = at k.central_accepts
  where
    at : (b : Bool) → Saves s (insert_entry_central (record k { central_accepts = b }) trans_id e s)
    at false = record { keeps = Keeps-same refl refl; adds = λ h. absurd (ground arith) }
    at true = record {
      keeps = record {
        entries = λ q h. kept-to_central (entry_is q.0 q.1) _ s.entries (or_right _ _ h);
        exits = λ q h. h;
      };
      adds = λ h.
          kept-to_central (entry_is e.iu_tk_no e.entry_time) _ s.entries
            (or_left _ _ (same_key e.iu_tk_no e.entry_time));
    }

insert_entry_local-Saves :
    (k : Links) (trans_id : Bytes) (e : Entry) (s : Store)
    → Saves s (insert_entry_local k trans_id e s)
unfolding insert_entry_local entry_row
insert_entry_local-Saves k trans_id e s = at (reaches_local k && k.local_accepts)
  where
    at :
        (b : Bool)
        → Saves s (
            if b
            then record {
              answer = db_success;
              transaction = e;
              store = record s {
                entries = to_local (entry_row e trans_id []) s.entries;
                offline_data = s.offline_data + 1;
              };
            }
            else record { answer = local_fail; transaction = e; store = s })
    at false = record { keeps = Keeps-same refl refl; adds = λ h. absurd (ground arith) }
    at true = record {
      keeps = record {
        entries = λ q h. kept-to_local (entry_is q.0 q.1) _ s.entries (or_right _ _ h);
        exits = λ q h. h;
      };
      adds = λ h.
          kept-to_local (entry_is e.iu_tk_no e.entry_time) _ s.entries
            (or_left _ _ (same_key e.iu_tk_no e.entry_time));
    }

online-Keeps : (n : ℤ) (s : Store) → Keeps s (record s { system_online = n })
online-Keeps n s = Keeps-same refl refl

if-Saves :
    {s : Store} {o p : Saved Entry} (b : Bool)
    → Saves s o
    → Saves s p
    → Saves s (if b then o else p)
if-Saves true v w = v
if-Saves false v w = w

behind-Saves : {s t : Store} {o : Saved Entry} → Keeps s t → Saves t o → Saves s o
behind-Saves p v = record { keeps = Keeps-trans p v.keeps; adds = v.adds }

pub insert_entry_trans-Saves :
    (stoi : Bytes → Option ℤ) (k : Links) (now trans_id : Bytes) (e : Entry) (s : Store)
    → Saves s (insert_entry_trans stoi k now trans_id e s)
unfolding insert_entry_trans
insert_entry_trans-Saves stoi k now trans_id e s =
    if-Saves (is_one k.central_connected || k.central_connects)
      (behind-Saves (online-Keeps (pos 0) s) (
        insert_entry_central-Saves k trans_id (stamped stoi now e)
          (record s { system_online = pos 0 })))
      (behind-Saves (online-Keeps (pos 1) s) (
        insert_entry_local-Saves k trans_id (stamped stoi now e)
          (record s { system_online = pos 1 })))

insert_exit_central-Saves :
    (k : Links) (trans_id : Bytes) (x : Exit) (s : Store)
    → SavesExit s (insert_exit_central k trans_id x s)
unfolding insert_exit_central exit_row
insert_exit_central-Saves k trans_id x s = at k.central_accepts
  where
    at :
        (b : Bool)
        → SavesExit s (insert_exit_central (record k { central_accepts = b }) trans_id x s)
    at false = record { keeps = Keeps-same refl refl; adds = λ h. absurd (ground arith) }
    at true = record {
      keeps = record {
        entries = λ q h. h;
        exits = λ q h. kept-to_central (exit_is q.0 q.1) _ s.exits (or_right _ _ h);
      };
      adds = λ h.
          kept-to_central (exit_is x.iu_no x.exit_time) _ s.exits
            (or_left _ _ (same_key x.iu_no x.exit_time));
    }

insert_exit_local-Saves :
    (k : Links) (trans_id : Bytes) (x : Exit) (s : Store)
    → SavesExit s (insert_exit_local k trans_id x s)
unfolding insert_exit_local exit_row
insert_exit_local-Saves k trans_id x s = at (reaches_local k && k.local_accepts)
  where
    at :
        (b : Bool)
        → SavesExit s (
            if b
            then record {
              answer = local_success;
              transaction = x;
              store = record s {
                exits = to_local (exit_row x trans_id) s.exits;
                offline_data = s.offline_data + 1;
              };
            }
            else record { answer = local_fail; transaction = x; store = s })
    at false = record { keeps = Keeps-same refl refl; adds = λ h. absurd (ground arith) }
    at true = record {
      keeps = record {
        entries = λ q h. h;
        exits = λ q h. kept-to_local (exit_is q.0 q.1) _ s.exits (or_right _ _ h);
      };
      adds = λ h.
          kept-to_local (exit_is x.iu_no x.exit_time) _ s.exits
            (or_left _ _ (same_key x.iu_no x.exit_time));
    }

if-SavesExit :
    {s : Store} {o p : Saved Exit} (b : Bool)
    → SavesExit s o
    → SavesExit s p
    → SavesExit s (if b then o else p)
if-SavesExit true v w = v
if-SavesExit false v w = w

behind-SavesExit : {s t : Store} {o : Saved Exit} → Keeps s t → SavesExit t o → SavesExit s o
behind-SavesExit p v = record { keeps = Keeps-trans p v.keeps; adds = v.adds }

pub insert_exit_trans-Saves :
    (k : Links) (trans_id : Bytes) (x : Exit) (s : Store)
    → SavesExit s (insert_exit_trans k trans_id x s)
unfolding insert_exit_trans
insert_exit_trans-Saves k trans_id x s =
    if-SavesExit (is_minus_one k.central_connected || k.central_connects)
      (behind-SavesExit (online-Keeps (pos 0) s)
        (insert_exit_central-Saves k trans_id (capped x) (record s { system_online = pos 0 })))
      (behind-SavesExit (online-Keeps (pos 1) s)
        (insert_exit_local-Saves k trans_id x (record s { system_online = pos 1 })))
