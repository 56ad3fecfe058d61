-- ===== src/Mpmc/Threads/Invariant/Moves.antt =====
-- Each move of a thread keeps the invariant.
use hqq.Common.{
  ℕ, suc, ◌+◌, ◌^◌, ◌≡◌, ◌≤◌, Option, arith, Bool, ◌==◌, ◌≢◌, Bool-cases, inl, inr, ==_iff,
}
use hqq.Mpmc.Layout.{Memory, Mring, MpmcRing, update}
use hqq.Mpmc.Ring.{
  Diff, Side, cas_w, cas_r, publish, release, store_payload, notify, wake_one, not_empty, not_full,
}
use hqq.Mpmc.Ring.Index.{IsHandle}
use hqq.Mpmc.Threads.{
  Pc, Move, idle, producer_load, producer, producer_cas, owns_producer, published, consumer_load,
  consumer, owns_consumer, released, producer_switch, consumer_switch, with_head,
}
use hqq.Mpmc.Threads.{
  begin_enqueue, load_w, test_producer, claim_w, woken_producer, give_up_producer, write,
  publish_move, notify_consumers, begin_dequeue, load_r, test_consumer, claim_r, woken_consumer,
  give_up_consumer, release_move, notify_producers,
}
use hqq.Mpmc.Threads.Invariant.Defs.{Knows, Inv}
use hqq.Mpmc.Threads.Invariant.Cells.{
  publish-Shared, release-Shared, claim_w-Shared, claim_r-Shared, write-Shared,
}
use hqq.Mpmc.Threads.Invariant.Knowledge.{
  publish-Knows, release-Knows, claim_w-Knows, claim_r-Knows, write-Knows, claimed-producer,
  claimed-consumer, switched-producer, switched-consumer,
}

-- A predicate of all threads after thread `i` went to `p'`.
update_all :
    (P : Pc → Type 0) (pc : ℕ → Pc) (i : ℕ) (p' : Pc)
    → P p'
    → ((j : ℕ) → i ≢ j → P (pc j))
    → (j : ℕ) → P (update pc i p' j)
update_all P pc i p' own others j = elim (Bool-cases (i == j)) [
  | inl here ↦ rw here own
  | inr there ↦ rw there (others j (λ e. cc (there, (==_iff i j).1 e)))
]

switch_owns_no_producer : (d : Diff) (pos q : ℕ) → producer_switch d pos ≢ owns_producer q
unfolding producer_switch
switch_owns_no_producer d pos q = ground arith

switch_owns_no_consumer : (d : Diff) (pos q : ℕ) → producer_switch d pos ≢ owns_consumer q
unfolding producer_switch
switch_owns_no_consumer d pos q = ground arith

consumer_switch_owns_no_producer : (d : Diff) (pos q : ℕ) → consumer_switch d pos ≢ owns_producer q
unfolding consumer_switch
consumer_switch_owns_no_producer d pos q = ground arith

consumer_switch_owns_no_consumer : (d : Diff) (pos q : ℕ) → consumer_switch d pos ≢ owns_consumer q
unfolding consumer_switch
consumer_switch_owns_no_consumer d pos q = ground arith

-- Waking changes neither cursor.
r-notify : (parker : Bool) (side : Side) (h : Mring) → (notify parker side h).1.r ≡ h.r
unfolding notify wake_one
r-notify parker side h = ground arith

w-notify : (parker : Bool) (side : Side) (h : Mring) → (notify parker side h).1.w ≡ h.w
unfolding notify wake_one
w-notify parker side h = ground arith

module _ {A : Type 0} (m : MpmcRing) (mem : Memory A) where
  Knows-words :
      (h' : Mring)
      → h'.r ≡ mem.head.r
      → h'.w ≡ mem.head.w
      → (p : Pc) → Knows m mem p
      → Knows m (with_head mem h') p
  Knows-words h' er ew (producer_cas q) kn = ground arith
  Knows-words h' er ew _ kn = ground arith

  -- The wait words and counts are no part of the invariant.
  pub words_Inv :
      {k : ℕ} {pc : ℕ → Pc} {log : ℕ → Option A} (h' : Mring)
      → h'.r ≡ mem.head.r
      → h'.w ≡ mem.head.w
      → Inv m k mem pc log
      → Inv m k (with_head mem h') pc log
  words_Inv {pc} h' er ew inv = record {
    shared = record {
      w_bound = omega (arith, inv.shared.w_bound);
      r_le_w = omega (arith, inv.shared.r_le_w);
      w_le_r = omega (arith, inv.shared.w_le_r);
      seq_bound = λ p. omega (arith, inv.shared.seq_bound p);
      seq_free = λ p e le. rw er (inv.shared.seq_free p e le);
      seq_published = λ p e. rw ew (inv.shared.seq_published p e);
      seq_logged = inv.shared.seq_logged;
    };
    knows = λ j. Knows-words h' er ew (pc j) (inv.knows j);
    producers = inv.producers;
    consumers = inv.consumers;
  }

module _ {A : Type 0} {m : MpmcRing} (h : IsHandle m) {k : ℕ} (room : suc k + m.size ≤ 2 ^ 63)
    {mem : Memory A} {pc : ℕ → Pc} {log : ℕ → Option A} (inv : Inv m k mem pc log) (i : ℕ) where
  -- A move that leaves memory alone, to a place that owns nothing.
  quiet_move :
      (p' : Pc)
      → Knows m mem p'
      → ((q : ℕ) → p' ≢ owns_producer q)
      → ((q : ℕ) → p' ≢ owns_consumer q)
      → Inv m (suc k) mem (update pc i p') log
  quiet_move p' kn np nc = record {
    shared = record {
      w_bound = omega arith;
      r_le_w = inv.shared.r_le_w;
      w_le_r = inv.shared.w_le_r;
      seq_bound = inv.shared.seq_bound;
      seq_free = inv.shared.seq_free;
      seq_published = inv.shared.seq_published;
      seq_logged = inv.shared.seq_logged;
    };
    knows = update_all (Knows m mem) pc i p' kn (λ j ne. inv.knows j);
    producers = λ a b q ea eb. ground (arith, np q, inv.producers a b q);
    consumers = λ a b q ea eb. ground (arith, nc q, inv.consumers a b q);
  }

  pub Move-Inv :
      {p p' : Pc} {mem' : Memory A} {log' : ℕ → Option A}
      → Move m mem log p mem' p' log'
      → pc i ≡ p
      → Knows m mem p
      → Inv m (suc k) mem' (update pc i p') log'
  Move-Inv begin_enqueue e kn = quiet_move producer_load tt (λ q x. cc) (λ q x. cc)
  Move-Inv load_w e kn = quiet_move (producer mem.head.w) (omega arith) (λ q x. cc) (λ q x. cc)
  Move-Inv (test_producer {pos}) e kn =
      quiet_move _ (switched-producer h room inv.shared pos kn) (switch_owns_no_producer _ pos)
        (switch_owns_no_consumer _ pos)
  Move-Inv (claim_w {pos}) e kn = record {
    shared = claim_w-Shared h room inv.shared pos kn;
    knows =
        update_all (Knows m (cas_w mem pos).1) pc i _ (claimed-producer h room inv.shared pos kn)
          (λ j ne. claim_w-Knows h room inv.shared pos (pc j) (inv.knows j) kn);
    producers = λ a b q ea eb.
        unfold cas_w in ground (arith, inv.producers a b q, inv.knows a, inv.knows b);
    consumers = λ a b q ea eb. unfold cas_w in ground (arith, inv.consumers a b q);
  }
  Move-Inv woken_producer e kn = quiet_move _ kn (λ q x. cc) (λ q x. cc)
  Move-Inv give_up_producer e kn = quiet_move idle tt (λ q x. cc) (λ q x. cc)
  Move-Inv (write {pos} x) e kn = record {
    shared = write-Shared h room inv.shared pos x kn;
    knows =
        update_all (Knows m (store_payload m mem pos x)) pc i _
          (write-Knows h room inv.shared pos x (owns_producer pos) kn)
          (λ j ne. write-Knows h room inv.shared pos x (pc j) (inv.knows j));
    producers = λ a b q ea eb.
        ground (arith, inv.producers a b q, inv.producers i a q, inv.producers i b q);
    consumers = λ a b q ea eb. ground (arith, inv.consumers a b q);
  }
  Move-Inv (publish_move {pos}) e kn = record {
    shared = publish-Shared h room inv.shared pos kn;
    knows = update_all (Knows m (publish m mem pos)) pc i published tt (λ j ne.
        publish-Knows h room inv.shared pos (pc j) kn (λ x. ne (inv.producers i j pos e x))
          (inv.knows j));
    producers = λ a b q ea eb. ground (arith, inv.producers a b q);
    consumers = λ a b q ea eb. ground (arith, inv.consumers a b q);
  }
  Move-Inv (notify_consumers parker) e kn =
      words_Inv m mem _ (r-notify parker not_empty mem.head) (w-notify parker not_empty mem.head)
        (quiet_move idle tt (λ q x. cc) (λ q x. cc))
  Move-Inv begin_dequeue e kn = quiet_move consumer_load tt (λ q x. cc) (λ q x. cc)
  Move-Inv load_r e kn = quiet_move (consumer mem.head.r) (omega arith) (λ q x. cc) (λ q x. cc)
  Move-Inv (test_consumer {pos}) e kn =
      quiet_move _ (switched-consumer h room inv.shared pos kn)
        (consumer_switch_owns_no_producer _ pos) (consumer_switch_owns_no_consumer _ pos)
  Move-Inv (claim_r {pos}) e kn = record {
    shared = claim_r-Shared h room inv.shared pos kn;
    knows =
        update_all (Knows m (cas_r mem pos).1) pc i _ (claimed-consumer h room inv.shared pos kn)
          (λ j ne. claim_r-Knows h room inv.shared pos (pc j) (inv.knows j) kn);
    producers = λ a b q ea eb. unfold cas_r in ground (arith, inv.producers a b q);
    consumers = λ a b q ea eb.
        unfold cas_r in ground (arith, inv.consumers a b q, inv.knows a, inv.knows b);
  }
  Move-Inv woken_consumer e kn = quiet_move _ kn (λ q x. cc) (λ q x. cc)
  Move-Inv give_up_consumer e kn = quiet_move idle tt (λ q x. cc) (λ q x. cc)
  Move-Inv (release_move {pos}) e kn = record {
    shared = release-Shared h room inv.shared pos kn;
    knows = update_all (Knows m (release m mem pos)) pc i released tt (λ j ne.
        release-Knows h room inv.shared pos (pc j) kn (λ x. ne (inv.consumers i j pos e x))
          (inv.knows j));
    producers = λ a b q ea eb. ground (arith, inv.producers a b q);
    consumers = λ a b q ea eb. ground (arith, inv.consumers a b q);
  }
  Move-Inv (notify_producers parker) e kn =
      words_Inv m mem _ (r-notify parker not_full mem.head) (w-notify parker not_full mem.head)
        (quiet_move idle tt (λ q x. cc) (λ q x. cc))
