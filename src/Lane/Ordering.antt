-- ===== src/Lane/Ordering.antt =====
-- The order between the mandatory cleanup of a lane of asyncengine/strategy.go and its accepted work.
use pit_go.Base.{
  ℕ, ◌+◌, ◌≤◌, ◌≡◌, refl, subst, Bool, List, [], ◌∷◌, arith, length, length-append, All, Picks-All,
}
use pit_go.Lane.Queue.{
  KeyQueue, Entry, Taken, new_key_queue, settle, admit_task, mark_sent, try_send, unmark_sent,
  enqueue_mandatory, wake_worker, finish_worker, take_mandatory_cleanup, after_task, close_channel,
  retire_if_idle, new_entry,
}
use pit_go.Lane.System.{
  Flight, polling, after_take, remark, Lane, in_hand, new_lane, Step, Reach, admit, send, abandon,
  queue_cleanup, announce, signal, take, receive, wake, see_fence, see_closed, see_quit, exit,
  handle, settle_task, clean, signal_stop, signal_hard_stop, close_fence, close, retire, start,
  next,
}
use pit_go.Lane.Taking.{Outcome, nothing, fenced, behind, released, take-Outcome, seen}
use pit_go.Lane.Invariant.{Inv, Reach-Inv, drain_lem}
use pit_go.Lane.Backlog.{
  Backlog, Backlog-map, Backlog-keep, Backlog-snoc, remark-Backlog, Backlog-drop, remark_unfenced,
  admit-EntryInv, send-EntryInv, abandon-EntryInv, settle-EntryInv, fresh-EntryInv,
}

-- `done` of the accepted tasks are settled.
pub record Owes (l : Lane) : Type 0 where
  pub done : ℕ
  pub done_exact : length l.accepted ≡ done + (length (in_hand l.worker) + length l.queue.ch)
  pub tickets : All (λ f. f.ticket ≤ l.queue.admitted) l.flights
  pub backlog : Backlog l.queue.admitted l.queue.settled l.flights done l.queue.mandatory l.marks

-- `Owes m` from the values that the fields of `m` have.
Owes-at :
    (m : Lane) (d : ℕ) {a s : ℕ} {fs : List Flight} {es : List Entry} {ns : List ℕ}
    → m.queue.admitted ≡ a
    → m.queue.settled ≡ s
    → m.flights ≡ fs
    → length m.accepted ≡ d + (length (in_hand m.worker) + length m.queue.ch)
    → m.queue.mandatory ≡ es
    → m.marks ≡ ns
    → All (λ f. f.ticket ≤ a) fs
    → Backlog a s fs d es ns
    → Owes m
Owes-at m d a s f w e n t b = record {
  done = d;
  done_exact = w;
  tickets = rw (a, f) t;
  backlog = rw (a, s, f, e, n) b;
}

-- A step that changes none of what `Owes` reads but the place of an unsettled task.
same-Owes :
    (l m : Lane)
    → m.queue.admitted ≡ l.queue.admitted
    → m.queue.settled ≡ l.queue.settled
    → m.flights ≡ l.flights
    → m.accepted ≡ l.accepted
    → length (in_hand m.worker) + length m.queue.ch ≡ length (in_hand l.worker) + length l.queue.ch
    → m.queue.mandatory ≡ l.queue.mandatory
    → m.marks ≡ l.marks
    → Owes l
    → Owes m
same-Owes l m a s f c w e n v =
    Owes-at m v.done a s f (rw (c, w) v.done_exact) e n v.tickets v.backlog

tickets-admit :
    (a : ℕ) (fs : List Flight) → All (λ f. f.ticket ≤ a) fs → All (λ f. f.ticket ≤ a + 1) fs
tickets-admit a [] h = tt
tickets-admit a (f ∷ fs) h = (omega (arith, h.0), tickets-admit a fs h.1)

module _ (tracks_idle : Bool) where
  -- The backlog after the worker has looked at its head.
  pub taken-Backlog :
      (l : Lane)
      → l.worker ≡ polling
      → Inv tracks_idle l
      → (h : Owes l) → (e : Entry) (es : List Entry) → l.queue.mandatory ≡ e ∷ es
      → Backlog l.queue.admitted l.queue.settled l.flights h.done
          (seen l.fence_closed l.queue.admitted e ∷ es)
          (remark l.fence_closed (length l.accepted) (e ∷ es) l.marks)
  taken-Backlog l w v h e es m =
      remark-Backlog l.queue.admitted l.queue.settled h.done l.flights (length l.queue.ch)
        (ground (arith, v.conserved)) h.tickets l.fence_closed (length l.accepted)
        (ground (arith, h.done_exact)) e es l.marks
        (subst (λ es. Backlog l.queue.admitted l.queue.settled l.flights h.done es l.marks) m
          h.backlog)

  take-Owes :
      (l : Lane) (q : KeyQueue) (t : Taken)
      → l.worker ≡ polling
      → Inv tracks_idle l
      → Owes l
      → Outcome l.fence_closed l.queue q t
      → Owes (after_take tracks_idle l q t)
  take-Owes l q t w v h (nothing m q_eq t_eq) =
      rw (q_eq, t_eq) (same-Owes l _ refl refl refl refl (ground arith) refl (rw m) h)
  take-Owes l q t w v h (fenced e es m f c q_eq t_eq) =
      rw (q_eq, t_eq)
        (same-Owes l _ refl refl refl refl (ground arith) refl
          (rw c (remark_unfenced (length l.accepted) l.queue.mandatory l.marks)) h)
  take-Owes l q t w v h (behind e es m f b q_eq t_eq) =
      rw (q_eq, t_eq)
        (Owes-at _ h.done refl refl refl (ground (arith, h.done_exact)) refl (rw m) h.tickets
          (taken-Backlog l w v h e es m))
  take-Owes l q t w v h (released e es m f b q_eq t_eq) =
      rw (q_eq, t_eq)
        (Owes-at _ h.done refl refl refl (ground (arith, h.done_exact)) refl (rw m) h.tickets (
          Backlog-drop l.queue.admitted l.queue.settled h.done l.flights _ es _
            (taken-Backlog l w v h e es m)))

  Step-Owes : {l m : Lane} → Step tracks_idle l m → Inv tracks_idle l → Owes l → Owes m
  unfolding take_mandatory_cleanup admit_task mark_sent try_send unmark_sent enqueue_mandatory
      wake_worker finish_worker settle after_task close_channel retire_if_idle
  Step-Owes {l} (admit qt live) v h = record {
    done = h.done;
    done_exact = h.done_exact;
    tickets = (omega arith, tickets-admit l.queue.admitted l.flights h.tickets);
    backlog =
        Backlog-keep
          (λ e n k. admit-EntryInv e n k (record { ticket = l.queue.admitted + 1; task = qt }) refl)
          l.queue.mandatory l.marks h.backlog;
  }
  Step-Owes {l} (send f now p u e) v h =
      Owes-at _ h.done (ground arith) (ground arith) refl
        (ground (
          arith,
          h.done_exact,
          length-append l.accepted (f.task ∷ []),
          length-append l.queue.ch (f.task ∷ []),
        ))
        (ground arith) refl (Picks-All _ p h.tickets).1
        (Backlog-keep (λ e n k. send-EntryInv e n k f p) l.queue.mandatory l.marks h.backlog)
  Step-Owes {l} (abandon f p) v h = record {
    done = h.done;
    done_exact = h.done_exact;
    tickets = (Picks-All _ p h.tickets).1;
    backlog =
        Backlog-map _ (λ e n k. abandon-EntryInv e n k f p) l.queue.mandatory l.marks h.backlog;
  }
  Step-Owes {l} (queue_cleanup qt waits e) v h =
      Owes-at _ h.done (ground arith) (ground arith) refl (ground (arith, h.done_exact))
        (ground arith) refl h.tickets
        (Backlog-snoc l.queue.admitted l.queue.settled h.done l.flights (new_entry l.queue qt waits)
          (length l.accepted)
          (fresh-EntryInv l.queue.admitted l.queue.settled h.done
            (length (in_hand l.worker) + length l.queue.ch) l.flights (omega (arith, v.conserved))
            h.tickets _ _ refl refl h.done_exact)
          l.queue.mandatory l.marks h.backlog)
  Step-Owes {l} (announce now k) v h =
      same-Owes l _ (ground arith) (ground arith) refl refl (ground arith) (ground arith) refl h
  Step-Owes {l} (signal k) v h = same-Owes l _ refl refl refl refl refl refl refl h
  Step-Owes {l} (take {q} {t} w e) v h =
      take-Owes l q t w v h (take-Outcome l.fence_closed l.queue v.mirrored e)
  Step-Owes {l} (receive qt w s e) v h =
      same-Owes l _ refl refl refl refl (ground arith) refl refl h
  Step-Owes {l} (wake w e) v h = same-Owes l _ refl refl refl refl (ground arith) refl refl h
  Step-Owes {l} (see_fence w e) v h = same-Owes l _ refl refl refl refl (ground arith) refl refl h
  Step-Owes {l} (see_closed w s c e) v h =
      same-Owes l _ refl refl refl refl (ground arith) refl refl h
  Step-Owes {l} (see_quit w s e) v h =
      let empty = v.retired_empty (v.quit_retired e) in
      same-Owes l _ (ground (arith, drain_lem tracks_idle l.queue empty.1))
        (ground (arith, drain_lem tracks_idle l.queue empty.1)) refl refl
        (ground (arith, drain_lem tracks_idle l.queue empty.1))
        (ground (arith, drain_lem tracks_idle l.queue empty.1)) refl h
  Step-Owes {l} (exit w s e) v h =
      same-Owes l _ (ground arith) (ground arith) refl refl (ground arith) (ground arith) refl h
  Step-Owes {l} (handle qt now w) v h =
      same-Owes l _ (ground arith) (ground arith) refl refl (ground arith) (ground arith) refl h
  Step-Owes {l} (settle_task qt w) v h =
      Owes-at _ (h.done + 1) refl refl refl (ground (arith, h.done_exact)) refl refl h.tickets
        (Backlog-keep settle-EntryInv l.queue.mandatory l.marks h.backlog)
  Step-Owes {l} (clean qt now w) v h =
      same-Owes l _ (ground arith) (ground arith) refl refl (ground arith) (ground arith) refl h
  Step-Owes {l} signal_stop v h = same-Owes l _ refl refl refl refl refl refl refl h
  Step-Owes {l} signal_hard_stop v h = same-Owes l _ refl refl refl refl refl refl refl h
  Step-Owes {l} (close_fence s) v h = same-Owes l _ refl refl refl refl refl refl refl h
  Step-Owes {l} (close e free) v h =
      same-Owes l _ (ground arith) (ground arith) refl refl (ground arith) (ground arith) refl h
  Step-Owes {l} (retire cutoff gate_free t e) v h =
      same-Owes l _ (ground arith) (ground arith) refl refl (ground arith) (ground arith) refl h

  pub Reach-Owes : {capacity now : ℕ} {l : Lane} → Reach tracks_idle capacity now l → Owes l
  unfolding new_lane new_key_queue
  Reach-Owes start = record { done = 0; done_exact = refl; tickets = tt; backlog = tt }
  Reach-Owes (next r st) = Step-Owes st (Reach-Inv tracks_idle r) (Reach-Owes r)
