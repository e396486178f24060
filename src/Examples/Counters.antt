-- ===== src/Examples/Counters.antt =====
-- The counters of a mailbox of internal/domain.
use yunt.Prelude.{true, false, [], ◌∷◌, arith}
use yunt.Domain.Mailbox.{Mailbox, new_mailbox}
use yunt.Domain.Mailbox.Contents.{
  size_of, call, arrives, marked_read, Counts, History, made, changed, History-Counts,
}

abbrev after_read : Mailbox
after_read =
    call 2 (marked_read 10 [] [])
      (call 1 (arrives 10 true []) (new_mailbox 0 "m" "u" "Inbox" "u@here"))

after_read-History : History ((10, false) ∷ []) after_read
unfolding size_of
after_read-History =
    changed 2 (marked_read 10 [] []) (omega arith) (omega arith)
      (changed 1 (arrives 10 true []) (omega arith) (omega arith) (made 0 "m" "u" "Inbox" "u@here"))

History-Counts_example : Counts after_read ((10, false) ∷ [])
History-Counts_example = History-Counts after_read-History
