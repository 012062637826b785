-- ===== src/Device/Connection/Run.antt =====
-- The rounds of `netConnectionTask`, one after the other.
use io_tware.Common.{
  ℕ, ◌≡◌, ◌<◌, refl, true, false, Exec, ok, undefined, ◌==◌, length, arith, subst,
}
use io_tware.Oal.Fifo.{fail}
use io_tware.Device.Table.{Devices}
use io_tware.Sifw.Object.{ℤ}
use io_tware.Device.Forward.{given}
use io_tware.Device.Net.{
  NetFunc, Kernel, net_fail, iw_is_connected_network, iw_is_ready_network, iw_scan_network,
  iw_connect_network,
}
use io_tware.Device.Connection.{
  TaskState, RoundEnd, again, leave, ap_not_found, is_status, is_up, dev_initialized,
  dev_init_error, rest_of, try_connecting, check_ready, connection_round,
}
use io_tware.Device.Forward.Frame.{
  Yields, Yields-bind, Yields-if, Yields-both, Yields-split, Yields-error, SameBut, SameBut-refl,
  SameBut-trans, forward-Framed,
}

eq→≡ : (a b : ℕ) → (a == b) ≡ true → a ≡ b
eq→≡ a b h = ground arith

module _ {W : Type 0} (type dev_id : ℕ) where
  -- What a round does to the state `s`: the table has at most the device's own entry changed, and
  -- the loop is left only for a device that is not connected and whose initialization failed.
  abbrev Ended : RoundEnd → TaskState W → Type 0
  Ended again s = Unit
  Ended leave s = (is_up type s.connected_status ≡ false) × (s.dev_status ≡ dev_init_error)

  abbrev pub AfterRound : TaskState W → RoundEnd × TaskState W → Type 0
  AfterRound s r = SameBut dev_id s.neti r.1.neti × Ended r.0 r.1

module _ {W : Type 0} (drivers : ℕ → NetFunc W) (kernel : Kernel W) (type dev_id : ℕ) where
  inside : (a b : Devices) → SameBut dev_id a b → dev_id < length a.dev → dev_id < length b.dev
  inside a b h l = omega (arith, h.room, l)

  module _ (neti : Devices) (w : W) (l : dev_id < length neti.dev) where
    scan-Framed :
        (rssi : ℤ)
        → Yields (λ r. SameBut dev_id neti r.1) (iw_scan_network drivers neti dev_id rssi w)
    unfolding iw_scan_network
    scan-Framed rssi =
        forward-Framed neti dev_id w drivers (λ f. given (λ g. g rssi) f.scan) (net_fail, rssi) l

    connect-Framed :
        (timeout : ℕ)
        → Yields (λ r. SameBut dev_id neti r.1) (iw_connect_network drivers neti dev_id timeout w)
    unfolding iw_connect_network
    connect-Framed timeout =
        forward-Framed neti dev_id w drivers (λ f. given (λ g. g timeout) f.connect) net_fail l

    is_connected-Framed :
        (connected : ℤ)
        → Yields
            (λ r. SameBut dev_id neti r.1)
            (iw_is_connected_network drivers neti dev_id connected w)
    unfolding iw_is_connected_network
    is_connected-Framed connected =
        forward-Framed neti dev_id w drivers (λ f. given (λ g. g connected) f.is_connected)
          (fail, connected) l

    is_ready-Framed :
        (status : ℕ)
        → Yields (λ r. SameBut dev_id neti r.1) (iw_is_ready_network drivers neti dev_id status w)
    unfolding iw_is_ready_network
    is_ready-Framed status =
        forward-Framed neti dev_id w drivers (λ f. given (λ g. g status) f.is_ready) (fail, status)
          l

  -- After a call that changed the own entry at most, the round goes on to one that does.
  After-SameBut :
      (s t : TaskState W) (x : Exec (RoundEnd × TaskState W))
      → SameBut dev_id s.neti t.neti
      → Yields (AfterRound type dev_id t) x
      → Yields (AfterRound type dev_id s) x
  After-SameBut s t (ok r) same h = (SameBut-trans dev_id s.neti t.neti r.1.neti same h.0, h.1)
  After-SameBut s t undefined same h = h

  try_connecting-After :
      (s : TaskState W)
      → dev_id < length s.neti.dev
      → Yields (AfterRound type dev_id s) (try_connecting drivers kernel type dev_id s)
  unfolding try_connecting rest_of
  try_connecting-After s l =
      Yields-bind (λ r. SameBut dev_id s.neti r.1) (AfterRound type dev_id s)
        (iw_scan_network drivers s.neti dev_id s.rssi s.world) _
        (scan-Framed s.neti s.world l s.rssi)
        (λ r same.
          Yields-if (AfterRound type dev_id s) (is_status 0 r.0.0) _ _
            (Yields-bind (λ q. SameBut dev_id r.1 q.1) (AfterRound type dev_id s)
              (iw_connect_network drivers r.1 dev_id 20000 r.2) _
              (connect-Framed r.1 r.2 (inside s.neti r.1 same l) 20000)
              (λ q same'. (SameBut-trans dev_id s.neti r.1 q.1 same same', tt)))
            (Yields-both (AfterRound type dev_id s) (ap_not_found r.0.0) _ _ (same, tt) (same, tt)))

  check_ready-After :
      (s : TaskState W)
      → dev_id < length s.neti.dev
      → is_up type s.connected_status ≡ false
      → Yields (AfterRound type dev_id s) (check_ready drivers kernel type dev_id s)
  unfolding check_ready rest_of
  check_ready-After s l down =
      Yields-bind (λ r. SameBut dev_id s.neti r.1) (AfterRound type dev_id s)
        (iw_is_ready_network drivers s.neti dev_id s.dev_status s.world) _
        (is_ready-Framed s.neti s.world l s.dev_status)
        (λ r same.
          let s' = record s { dev_status = r.0.1; neti = r.1; world = r.2 } in
          Yields-error (AfterRound type dev_id s) r.0.0 _ _ (same, tt)
            (Yields-split (AfterRound type dev_id s) (r.0.1 == dev_initialized) _ _
              (λ e.
                After-SameBut s s' (try_connecting drivers kernel type dev_id s') same
                  (try_connecting-After s' (inside s.neti r.1 same l)))
              (λ e.
                Yields-split (AfterRound type dev_id s) (r.0.1 == dev_init_error) _ _
                  (λ failed. (same, (down, eq→≡ r.0.1 dev_init_error failed))) (λ e'. (same, tt)))))

  round-After :
      (s : TaskState W)
      → dev_id < length s.neti.dev
      → Yields (AfterRound type dev_id s) (connection_round drivers kernel type dev_id s)
  unfolding connection_round rest_of
  round-After s l =
      Yields-bind (λ r. SameBut dev_id s.neti r.1) (AfterRound type dev_id s)
        (iw_is_connected_network drivers s.neti dev_id s.connected_status s.world) _
        (is_connected-Framed s.neti s.world l s.connected_status)
        (λ r same.
          let s' = record s { connected_status = r.0.1; neti = r.1; world = r.2 } in
          Yields-error (AfterRound type dev_id s) r.0.0 _ _ (same, tt)
            (Yields-split (AfterRound type dev_id s) (is_up type r.0.1) _ _ (λ e. (same, tt))
              (λ down.
                After-SameBut s s' (check_ready drivers kernel type dev_id s') same
                  (check_ready-After s' (inside s.neti r.1 same l) down))))

  -- Any number of rounds from a state, with how the last one ended.
  pub data Rounds : TaskState W → RoundEnd → TaskState W → Type 0 where
    none_yet : {s : TaskState W} → Rounds s again s
    one_more :
        {s t u : TaskState W} {e : RoundEnd}
        → Rounds s again t
        → connection_round drivers kernel type dev_id t ≡ ok (e, u)
        → Rounds s e u

  -- Where the task stands after some rounds.
  abbrev pub Stands : TaskState W → RoundEnd × TaskState W → Type 0
  Stands s (again, t) =
      SameBut dev_id s.neti t.neti
      × ((e : RoundEnd) × (u : TaskState W) × (connection_round drivers kernel type dev_id t
            ≡ ok (e, u)))
  Stands s (leave, t) =
      SameBut dev_id s.neti t.neti
      × ((is_up type t.connected_status ≡ false) × (t.dev_status ≡ dev_init_error))

  yielded : {A : Type 0} (P : A → Type 0) (x : Exec A) → Yields P x → (a : A) × (x ≡ ok a)
  yielded P (ok a) h = (a, refl)
  yielded P undefined h = absurd h

  Stands-again :
      (s t : TaskState W)
      → dev_id < length s.neti.dev
      → SameBut dev_id s.neti t.neti
      → Stands s (again, t)
  Stands-again s t l same =
      let (r, e) =
        yielded (AfterRound type dev_id t) (connection_round drivers kernel type dev_id t)
          (round-After t (inside s.neti t.neti same l)) in
      (same, (r.0, r.1, e))

  Stands-after :
      (s t u : TaskState W) (e : RoundEnd)
      → dev_id < length s.neti.dev
      → SameBut dev_id s.neti t.neti
      → AfterRound type dev_id t (e, u)
      → Stands s (e, u)
  Stands-after s t u again l same h =
      Stands-again s u l (SameBut-trans dev_id s.neti t.neti u.neti same h.0)
  Stands-after s t u leave l same h = (SameBut-trans dev_id s.neti t.neti u.neti same h.0, h.1)

  -- However many rounds the connection task has made for a device within the table, and whatever the
  -- driver did in them, the entries of the other devices are as they were. The task goes on with
  -- another round, without undefined behaviour, unless it left the loop; that it does only for a
  -- device that is not connected and whose initialization has failed.
  pub Rounds-Stands :
      (s t : TaskState W) (e : RoundEnd)
      → dev_id < length s.neti.dev
      → Rounds s e t
      → Stands s (e, t)
  Rounds-Stands s t e l none_yet = Stands-again s s l (SameBut-refl dev_id s.neti)
  Rounds-Stands s u e l (one_more {t = t} run step) =
      let before = Rounds-Stands s t again l run in
      Stands-after s t u e l before.0 (
        subst (Yields (AfterRound type dev_id t)) step
          (round-After t (inside s.neti t.neti before.0 l)))
