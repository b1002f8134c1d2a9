-- ===== src/Engine/Races.antt =====
-- A run of the ring of examples/stub-engine/disruptor.go.
use quant_dominater.Base.{◌*◌, ℕ, refl, arith}
use quant_dominater.Engine.Ring.{
  Ring, new_ring, claim, write, release, consume, Reached, start, claims, writes, releases,
  consumes, Sound,
}
use quant_dominater.Engine.Fifo.{Reached-Sound}

-- Two producers claim a position; the second is the first to publish, and the consumer still returns
-- the first one's item first.
abbrev squares : ℕ → ℕ
squares n = n * n

abbrev both_claimed : Ring ℕ
both_claimed = claim (claim new_ring)

abbrev second_written : Ring ℕ
second_written = release 1 (write 1 1 both_claimed)

abbrev first_written : Ring ℕ
first_written = release 0 (write 0 0 second_written)

ring_run : Reached squares 2 (consume 0 first_written)
unfolding claim write release consume
ring_run = consumes 2 first_written 0 refl refl (
    releases 2 (write 0 0 second_written) 0 refl (
      writes 2 second_written 0 refl refl (
        releases 2 (write 1 1 both_claimed) 1 refl (
          writes 2 both_claimed 1 refl refl
            (claims 1 (claim new_ring) (claims 0 new_ring start))))))

Reached-Sound_example : Sound squares 2 (consume 0 first_written)
Reached-Sound_example = Reached-Sound squares 2 (consume 0 first_written) (omega arith) ring_run
