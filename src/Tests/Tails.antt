-- ===== src/Tests/Tails.antt =====
-- A file that is followed, a stream of lines, and calls of a log tail receiver.
use taplytix.Prelude.{
  true, ℕ, List, if◌then◌else◌, ◌==◌, ◌≡◌, refl, [], ◌∷◌, ◌++◌, none, some, Str, bytes, arith,
}
use taplytix.Receiver.LogTail.Tailing.{Disk, Tail, follow}
use taplytix.Receiver.LogTail.Tailing.Lines.{unlines, rotated-sends_later}
use taplytix.Receiver.LogTail.Streams.{read_stream, read_stream-stops}
use taplytix.Receiver.LogTail.Calls.{
  Source, listen, path, use_stdin, already_started, Tailer, fresh, begin, attach, start, stop,
  begins, stops, attaches, here, next, Reach, settle,
}
use taplytix.Receiver.LogTail.Calls.Closing.{stop-Settles, failed_start-Refuses}

-- What is sent, in order.
abbrev record_line : Str → List Str → List Str
record_line l sent = sent ++ l ∷ []

abbrev on_disk : Str → Str → ℕ → Str
on_disk old new id = if id == 1 then old else new

-- The path names file 2 after the rotation.
abbrev rotated : Str → Disk
rotated new = record { content = on_disk (bytes "old") new; at_path = some 2; opens = true }

abbrev after_up : Tail
after_up = record { file = 1; offset = 3 }

rotated-sends_later_example :
    (follow record_line
      (rotated (bytes "lost" ++ 10 ∷ [])
        ∷ rotated ((bytes "lost" ++ 10 ∷ []) ++ unlines (bytes "seen" ∷ []))
        ∷ [])
      (after_up, [])).1
    ≡ bytes "seen" ∷ []
rotated-sends_later_example =
    rotated-sends_later record_line (rotated (bytes "lost" ++ 10 ∷ []))
      (rotated ((bytes "lost" ++ 10 ∷ []) ++ unlines (bytes "seen" ∷ []))) after_up [] 2
      (bytes "seen" ∷ []) refl refl refl refl ((refl, (refl, (refl, (refl, tt)))), tt) refl

-- With room for 4 bytes.
read_stream-stops_example :
    read_stream record_line 4
      (unlines (bytes "up" ∷ []) ++ (bytes "down" ++ (10 ∷ unlines (bytes "on" ∷ []))))
      []
    ≡ bytes "up" ∷ []
read_stream-stops_example =
    read_stream-stops record_line 4 (bytes "up" ∷ []) (bytes "down")
      (10 ∷ unlines (bytes "on" ∷ [])) [] ((refl, (refl, tt)), tt) (omega arith, tt)
      (refl, (refl, (refl, (refl, tt)))) (omega arith)

-- A Stop between the two locks of a Start that listens.
abbrev crossed : Tailer
crossed = (attach 1 (listen (some 8)) (stop (begin 1 fresh))).0

crossed-Reach : Reach crossed
crossed-Reach = next (next (next here (begins 1 refl)) stops) (attaches 1 (listen (some 8)))

stop-Settles_example :
    ((stop crossed).cancel ≡ none)
    × ((stop crossed).listener ≡ none)
    × ((stop crossed).live ≡ [])
    × (settle (stop crossed) ≡ [])
stop-Settles_example = stop-Settles crossed-Reach

abbrev refused : Tailer
refused = (start 1 (listen none) fresh).0

failed_start-Refuses_example :
    (refused.live ≡ [])
    × (settle refused ≡ [])
    × ((again : ℕ) (other : Source) → start again other refused ≡ (refused, some already_started))
    × ((again : ℕ) → (start again path (stop refused)).1 ≡ none)
    × ((again : ℕ) → (start again use_stdin (stop refused)).1 ≡ none)
unfolding start
failed_start-Refuses_example = failed_start-Refuses 1 (listen none) here refl refl
