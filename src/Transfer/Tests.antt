-- ===== src/Transfer/Tests.antt =====
-- Runs that transfer one byte.
use computer_science_notes.Base.{
  ◌≢◌, ◌≡◌, refl, [], ◌∷◌, List, ℕ, arith, ◌+◌, ◌*◌, ◌≤◌, length, ◌⊎◌,
}
use computer_science_notes.Transfer.System.{
  System, Run, begin, then_step, reserve_write, read_block, release_read, reserve_read,
  examine_more, examine_end, release_last, test_end, write_block, release_write, test_more,
  writer_done, reader_done,
}
use computer_science_notes.Transfer.Invariant.{HasInts, Run_delivers}
use computer_science_notes.Transfer.Progress.{CanGoOn, Run_bounded, Run_no_deadlock}

abbrev one_byte : List ℕ
one_byte = 7 ∷ []

block-nonempty : one_byte ≢ []
block-nonempty h = ground arith

abbrev half_way : (s : System) × Run 2 one_byte 5 s
half_way = (
  _,
  then_step
      (then_step
        (then_step
          (then_step (then_step begin (reserve_write refl (omega arith)))
            (read_block (7 ∷ []) [] refl refl (omega arith) (λ h. refl)))
          (release_read refl))
        (reserve_read refl (omega arith)))
      (examine_more refl block-nonempty),
)

abbrev delivered : (s : System) × Run 2 one_byte 15 s
delivered = (
  _,
  then_step
      (then_step
        (then_step
          (then_step
            (then_step
              (then_step
                (then_step
                  (then_step
                    (then_step
                      (then_step
                        (then_step
                          (then_step
                            (then_step
                              (then_step (then_step begin (reserve_write refl (omega arith)))
                                (read_block (7 ∷ []) [] refl refl (omega arith) (λ h. refl)))
                              (release_read refl))
                            (reserve_read refl (omega arith)))
                          (examine_more refl block-nonempty))
                        (write_block refl))
                      (release_write refl))
                    (test_more refl block-nonempty))
                  (reserve_write refl (omega arith)))
                (read_block [] [] refl refl (omega arith) (λ h. refl)))
              (release_read refl))
            (test_end refl refl))
          (reserve_read refl (omega arith)))
        (examine_end refl refl))
      (release_last refl),
)

Run_delivers_example :
    HasInts delivered.0
    × (delivered.0.output ≡ one_byte)
    × (delivered.0.received ≡ length one_byte)
    × (delivered.0.sent ≡ length one_byte)
Run_delivers_example = Run_delivers delivered.1 (omega arith) refl

Run_bounded_example : 15 ≤ 9 * length one_byte + 10
Run_bounded_example = Run_bounded delivered.1

Run_no_deadlock_example :
    ((half_way.0.writer ≡ writer_done) × (half_way.0.reader ≡ reader_done)) ⊎ CanGoOn 2 half_way.0
Run_no_deadlock_example =
    Run_no_deadlock (omega arith) half_way.1 (λ h. ground arith) (λ h. ground arith)
