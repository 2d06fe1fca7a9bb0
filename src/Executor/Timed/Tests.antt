-- ===== src/Executor/Timed/Tests.antt =====
-- Runs of `block_on` on a timer driver.
use faser.Prelude.{ℕ, ◌+◌, ◌*◌, ◌^◌, ◌≡◌, refl, true, List, [], ◌∷◌, Ensures, arith}
use faser.Timer.Wheels
use faser.Timer.Sleep
use faser.Timer.Runtime.{Timers, new}
use faser.Timer.Runtime.Owning.{InOrder, new-InOrder}
use faser.Timer.Runtime.Starting.{millis}
use faser.Executor.Timed.{start, rounds}
use faser.Executor.Timed.Returning.{Returns, comes, block_on-Returns}

-- Every sleep is for five milliseconds.
abbrev five : Timers
five = new (λ i. 5 * 10 ^ 6)

five-InOrder : InOrder five
five-InOrder = new-InOrder (λ i. 5 * 10 ^ 6) (λ i. omega arith)

-- The parks return after three and after six milliseconds.
abbrev instants : List ℕ
instants = 3 * 10 ^ 6 ∷ 6 * 10 ^ 6 ∷ []

block_on-Returns_example :
    Ensures
      (Returns (comes (five.wheels.elapsed + millis 0 five) five.wheels.elapsed instants))
      (rounds instants (start five))
unfolding new Wheels.new Sleep.new
block_on-Returns_example =
    block_on-Returns instants five five-InOrder refl refl
      (omega arith, omega arith, (omega arith, omega arith, tt))

comes-instants : comes (five.wheels.elapsed + millis 0 five) five.wheels.elapsed instants ≡ true
unfolding new Wheels.new
comes-instants = refl
