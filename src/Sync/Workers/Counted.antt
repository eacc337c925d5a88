-- ===== src/Sync/Workers/Counted.antt =====
-- What is counted of the actions, by their kind and in bytes, while no copy fails.
use omnistorage.Base.{◌+◌, ◌≡◌, ap, arith, Option, none, some, Error, Bool-cases, List-cases}
use omnistorage.Base.Int.{pos_part, neg_part, +ℤ_parts}
use omnistorage.Sync.Options.{Options}
use omnistorage.Sync.Workers.{
  Worker, waiting, received, copying, counting, stopping, returned, Shared, advance, send_next,
}
use omnistorage.Sync.Workers.Total.{total, held, unclaimed, send_next-total, Conserved}
use omnistorage.Sync.Workers.Balance.{
  Clean, nothing, fresh, renewed, size_up, size_down, no_error, before_error, before_sender,
}

module _ (opts : Options) where
  sender_keeps :
      (s : Shared)
      → ((send_next s).errors ≡ s.errors)
        × ((send_next s).copied ≡ s.copied)
        × ((send_next s).updated ≡ s.updated)
        × ((send_next s).bytes_transferred ≡ s.bytes_transferred)
  unfolding send_next
  sender_keeps s = ground (arith, List-cases s.pending)

  before_sender_error : (s : Shared) → Clean (send_next s) → Clean s
  before_sender_error s h = ground (arith, before_sender opts s, sender_keeps s)

  copied_by_worker :
      (outcome : Option Error) (s : Shared) (w : Worker)
      → Clean (advance opts outcome s w).0
      → (advance opts outcome s w).0.copied
          + unclaimed fresh (advance opts outcome s w).0
          + held fresh nothing (advance opts outcome s w).1
        ≡ s.copied + unclaimed fresh s + held fresh nothing w
  unfolding advance total
  copied_by_worker outcome s waiting h = ground (arith, List-cases s.queue)
  copied_by_worker outcome s (received a) h = ground (arith, h)
  copied_by_worker none s (copying a) h =
      ground (arith, Bool-cases opts.dry_run, Bool-cases a.is_update)
  copied_by_worker (some e) s (copying a) h =
      ground (arith, Bool-cases opts.dry_run, Bool-cases a.is_update, no_error opts a e s)
  copied_by_worker outcome s (counting a) h = omega arith
  copied_by_worker outcome s stopping h = omega arith
  copied_by_worker outcome s returned h = omega arith

  updated_by_worker :
      (outcome : Option Error) (s : Shared) (w : Worker)
      → Clean (advance opts outcome s w).0
      → (advance opts outcome s w).0.updated
          + unclaimed renewed (advance opts outcome s w).0
          + held renewed nothing (advance opts outcome s w).1
        ≡ s.updated + unclaimed renewed s + held renewed nothing w
  unfolding advance total
  updated_by_worker outcome s waiting h = ground (arith, List-cases s.queue)
  updated_by_worker outcome s (received a) h = ground (arith, h)
  updated_by_worker none s (copying a) h =
      ground (arith, Bool-cases opts.dry_run, Bool-cases a.is_update)
  updated_by_worker (some e) s (copying a) h =
      ground (arith, Bool-cases opts.dry_run, Bool-cases a.is_update, no_error opts a e s)
  updated_by_worker outcome s (counting a) h = omega arith
  updated_by_worker outcome s stopping h = omega arith
  updated_by_worker outcome s returned h = omega arith

  -- The sizes, which may be negative, by their two parts.
  bytes_by_worker :
      (outcome : Option Error) (s : Shared) (w : Worker)
      → Clean (advance opts outcome s w).0
      → let (s', w') = advance opts outcome s w in
        pos_part s'.bytes_transferred
          + unclaimed size_up s'
          + held size_up size_up w'
          + (neg_part s.bytes_transferred + unclaimed size_down s)
          + held size_down size_down w
        ≡ pos_part s.bytes_transferred
          + unclaimed size_up s
          + held size_up size_up w
          + (neg_part s'.bytes_transferred + unclaimed size_down s')
          + held size_down size_down w'
  unfolding advance total
  bytes_by_worker outcome s waiting h = ground (arith, List-cases s.queue)
  bytes_by_worker outcome s (received a) h = ground (arith, h)
  bytes_by_worker none s (copying a) h = ground (arith, Bool-cases opts.dry_run)
  bytes_by_worker (some e) s (copying a) h =
      ground (arith, Bool-cases opts.dry_run, no_error opts a e s)
  bytes_by_worker outcome s (counting a) h = omega (arith, +ℤ_parts s.bytes_transferred a.file.size)
  bytes_by_worker outcome s stopping h = omega arith
  bytes_by_worker outcome s returned h = omega arith

  pub copied-Conserved :
      Conserved opts Clean
        (λ s. s.copied + unclaimed fresh s)
        (held fresh nothing)
        (λ s. 0)
        (λ w. 0)
  copied-Conserved = record {
    by_worker = λ outcome s w h. omega (arith, copied_by_worker outcome s w h);
    by_sender = λ s. omega (arith, sender_keeps s, send_next-total fresh s);
    not_canceled = λ s h. h.0;
    before_worker = before_error opts;
    before_sender = before_sender_error;
  }

  pub updated-Conserved :
      Conserved opts Clean
        (λ s. s.updated + unclaimed renewed s)
        (held renewed nothing)
        (λ s. 0)
        (λ w. 0)
  updated-Conserved = record {
    by_worker = λ outcome s w h. omega (arith, updated_by_worker outcome s w h);
    by_sender = λ s. omega (arith, sender_keeps s, send_next-total renewed s);
    not_canceled = λ s h. h.0;
    before_worker = before_error opts;
    before_sender = before_sender_error;
  }

  pub bytes-Conserved :
      Conserved opts Clean
        (λ s. pos_part s.bytes_transferred + unclaimed size_up s)
        (held size_up size_up)
        (λ s. neg_part s.bytes_transferred + unclaimed size_down s)
        (held size_down size_down)
  bytes-Conserved = record {
    by_worker = bytes_by_worker;
    by_sender = λ s. omega (
      arith,
      ap pos_part (sender_keeps s).3,
      ap neg_part (sender_keeps s).3,
      send_next-total size_up s,
      send_next-total size_down s,
    );
    not_canceled = λ s h. h.0;
    before_worker = before_error opts;
    before_sender = before_sender_error;
  }
