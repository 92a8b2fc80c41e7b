-- ===== src/Station/Server/Quiet.antt =====
-- The commands of the server that leave no mark.
use my_linux_pbs.Base.{
  ◌≡◌, refl, ap, sym, ◌∙◌, Bool, Bool-cases, inl, inr, true, false, Option, none, some, List, [],
  ◌∷◌, ◌++◌, append-nil, if◌then◌else◌, Bytes, codes, arith, ltb,
}
use my_linux_pbs.Base.Int.{ℤ, pos, is_pos, ltb_ℤ, leb_ℤ}
use my_linux_pbs.Text.Fields.{field}
use my_linux_pbs.Station.State.{
  Station, Action, Table, downloaded, loaded, to_server, parameter_written, offline_moved,
  broadcast_inserted, local_entry_updated,
}
use my_linux_pbs.Station.Op.{Op, ◌then_op◌, call, behind}
use my_linux_pbs.Station.Barrier.{close_barrier}
use my_linux_pbs.Station.Manual.{manual_close_barrier}
use my_linux_pbs.Station.SeasonMessage.{contains}
use my_linux_pbs.Station.Marks.{Mark, marks, mark, marks-append}
use my_linux_pbs.Station.Host.{Host, Orders, noted, ran, download, load_if, default_idle}
use my_linux_pbs.Station.Server.{keep_lock, come_online, converted, tell_fee, test_fee, broadcast}
use my_linux_pbs.Station.Faults.{send_my_status}

-- The marks of all that a host has sent.
abbrev pub left_by : Host → List Mark
left_by h = marks h.world.sent

pub marks-noted : (a : Action) (h : Host) → mark a ≡ [] → left_by (noted a h) ≡ left_by h
unfolding noted
marks-noted a h e = marks-append h.world.sent (a ∷ []) ∙ rw e (append-nil (left_by h))

pub marks-ran :
    (f : Op) (h : Host) → left_by (ran f h) ≡ left_by h ++ marks (f h.world.station).sent
unfolding ran
marks-ran f h = marks-append h.world.sent (f h.world.station).sent

-- A part of a command that leaves no mark.
pub record Quiet (f : Host → Host) : Type 0 where
  pub silent : (h : Host) → left_by (f h) ≡ left_by h

pub noted-Quiet : (a : Action) → mark a ≡ [] → Quiet (noted a)
noted-Quiet a e = record { silent = λ h. marks-noted a h e }

infixr 20 ◌then_quiet◌
pub ◌then_quiet◌ : {f g : Host → Host} → Quiet f → Quiet g → Quiet (λ h. g (f h))
◌then_quiet◌ {f = f} p q = record { silent = λ h. q.silent (f h) ∙ p.silent h }

if-Quiet : {f : Host → Host} (b : Host → Bool) → Quiet f → Quiet (λ h. if b h then f h else h)
if-Quiet b p = record {
  silent = λ h. elim (Bool-cases (b h)) [ inl e ↦ rw e (p.silent h) | inr e ↦ rw e refl ];
}

pub download-Quiet : (o : Orders) (t : Table) (what : Bytes) → Quiet (download o t what)
unfolding download
download-Quiet o t what =
    noted-Quiet (downloaded t) refl
    then_quiet if-Quiet (λ h. ltb_ℤ (pos 0) (o.count t)) (noted-Quiet (to_server _ _) refl)

pub load_if-Quiet : (b : Bool) (t : Table) → Quiet (load_if b t)
unfolding load_if
load_if-Quiet b t = if-Quiet (λ h. b) (noted-Quiet (loaded t) refl)

marks-close : (s : Station) → marks (manual_close_barrier s).sent ≡ []
unfolding manual_close_barrier close_barrier ◌then_op◌ call behind
marks-close s = ground arith

pub close-Quiet : Quiet (ran manual_close_barrier)
close-Quiet = record {
  silent = λ h.
      marks-ran manual_close_barrier h
      ∙ ap (λ m. left_by h ++ m) (marks-close h.world.station)
      ∙ append-nil (left_by h);
}

pub keep_lock-Quiet : (o : Orders) (value : Bytes) (b : Bool) → Quiet (keep_lock o value b)
unfolding keep_lock
keep_lock-Quiet o value b = record {
  silent = λ h.
      let k = marks-noted (parameter_written (codes "LockBarrier") value) h refl in
      elim (Bool-cases (is_pos (o.write_parameter (codes "LockBarrier") value) 0)) [
        | inl e ↦ rw e k
        | inr e ↦ rw e k
      ];
}

pub default_idle-Quiet : (o : Orders) → Quiet (default_idle o)
unfolding default_idle
default_idle-Quiet o = record { silent = λ h. refl }

pub come_online-Quiet : Quiet come_online
unfolding come_online
come_online-Quiet = record {
  silent = λ h. elim (Bool-cases (is_pos h.system_online 0)) [
    | inl e ↦ rw e refl
    | inr e ↦ rw e (
        (if-Quiet (λ (g : Host). ltb 0 g.offline_data) (noted-Quiet offline_moved refl)).silent
          (record h { system_online = pos 0 }))
  ];
}

pub converted-Quiet :
    (x : Option ℤ) (f : ℤ → Host → Host) → ((n : ℤ) → Quiet (f n)) → Quiet (converted x f)
converted-Quiet none f p = record { silent = λ h. refl }
converted-Quiet (some n) f p = record { silent = (p n).silent }

tell_fee-Quiet : (o : Orders) (text : Bytes) (t : ℤ) → Quiet (tell_fee o text t)
unfolding tell_fee
tell_fee-Quiet o text t = if-Quiet (λ h. leb_ℤ (pos 0) _) (noted-Quiet (to_server _ _) refl)

pub test_fee-Quiet : (o : Orders) (text : Bytes) → Quiet (test_fee o text)
unfolding test_fee
test_fee-Quiet o text = converted-Quiet _ (tell_fee o text) (tell_fee-Quiet o text)

pub broadcast-Quiet : (o : Orders) (fs : List Bytes) → Quiet (broadcast o fs)
unfolding broadcast
broadcast-Quiet o fs = record {
  silent = λ h. elim (Bool-cases (contains (codes "Entry OK") (field fs 3))) [
    | inl e ↦ rw e ((if-Quiet (λ g. _) (noted-Quiet (broadcast_inserted _ _) refl)).silent h)
    | inr e ↦ rw e ((if-Quiet (λ g. _) (noted-Quiet (local_entry_updated _) refl)).silent h)
  ];
}

pub quiet : {f : Host → Host} (h : Host) → Quiet f → left_by (f h) ≡ left_by h ++ []
quiet h p = p.silent h ∙ sym (append-nil (left_by h))

pub status-mark : (o : Orders) (h : Host) → mark (send_my_status o.env h.world.faults) ≡ []
unfolding send_my_status
status-mark o h = refl

pub told-Quiet : (cmd text : Bytes) → Quiet (noted (to_server cmd text))
told-Quiet cmd text = noted-Quiet (to_server cmd text) refl

-- A table is copied and read.
pub renewed-Quiet :
    (o : Orders) (t : Table) (what : Bytes) → Quiet (λ h. noted (loaded t) (download o t what h))
renewed-Quiet o t what = download-Quiet o t what then_quiet noted-Quiet (loaded t) refl

pub messages-Quiet : (o : Orders) → Quiet (λ h. if h.carpark_full then h else default_idle o h)
messages-Quiet o = record { silent = λ h. at h.carpark_full h }
  where
    at : (b : Bool) (h : Host) → left_by (if b then h else default_idle o h) ≡ left_by h
    at true h = refl
    at false h = (default_idle-Quiet o).silent h
