-- ===== src/Collector/Harvester/Tail/Tests.antt =====
-- A tailer at a concrete file.
use sugi.Base.{◌<◌, ◌+◌, ◌≤◌, ◌≡◌, refl, true, List, [], ◌∷◌, ◌++◌, length, arith}
use sugi.Base.Int.{pos}
use sugi.Base.Text.{Text, codes}
use sugi.Base.Cuts.{lacks-Lacks}
use sugi.Collector.Harvester.Tail.Lines.{Extends, Run-Extends}
use sugi.Collector.Harvester.Tail.{
  Run, here, next, writes, polls, truncates, Tailer, open_tail, tick, clip, trim_eol, poll, written,
}
use sugi.Collector.Harvester.Tail.Rate.{Within, started, write, read, Within-max_rate}
use sugi.Collector.Harvester.Tail.Complete.{join_lines, logged_of}
use sugi.Collector.Harvester.Tail.Appends.{Appends, open_tail-IsAtEnd}
use sugi.Collector.Harvester.Tail.Torn.{torn, torn-logged}

abbrev content : Text
content = codes "one\ntwo\nthree"

abbrev opened_at : Tailer
opened_at = open_tail content [] (pos 2)

abbrev busy : Tailer
busy = poll 1 4 (poll 1 0 (written (codes "a\nb\n") (tick opened_at)))

busy_run : Within 1 (tick opened_at) busy
busy_run = read 4 (read 0 (write (codes "a\nb\n") started))

Within-max_rate_example : length busy.logged ≤ length opened_at.logged + 1
Within-max_rate_example = Within-max_rate opened_at busy_run

abbrev lines : List Text
lines = codes "a" ∷ codes "b\r" ∷ []

abbrev appended_to : Tailer
appended_to = poll 1 0 (written (join_lines lines) (tick opened_at))

logged_of-lines : logged_of lines ≡ codes "a" ∷ codes "b" ∷ []
unfolding logged_of clip trim_eol
logged_of-lines = refl

no_lines : opened_at.lines_this_second < 5
unfolding open_tail
no_lines = omega arith

torn-logged_example :
    ((torn 5 opened_at (codes "a") (codes "bc") 0 0).logged
      ≡ opened_at.logged ++ logged_of (codes "bc" ∷ []))
    × ((torn 5 opened_at (codes "a") (codes "bc") 0 0).offset + length (codes "a")
        ≡ length (opened_at.file ++ (codes "a" ++ (codes "bc" ++ 10 ∷ []))))
torn-logged_example =
    torn-logged 5 opened_at (codes "a") (codes "bc") 0 0 (open_tail-IsAtEnd content [] (pos 2))
      no_lines (lacks-Lacks 10 (codes "a") refl) (lacks-Lacks 10 (codes "bc") refl)

abbrev cut_off : Tailer
cut_off = poll 5 0 (record (poll 5 2 (written (codes "x\ny") opened_at)) { file = codes "one" })

on : (written (codes "x\ny") opened_at).running ≡ true
unfolding open_tail written
on = refl

still_running : (poll 5 2 (written (codes "x\ny") opened_at)).running ≡ true
unfolding open_tail written poll
still_running = refl

tailing : Run 5 opened_at cut_off
unfolding poll written open_tail
tailing =
    next (next (next (next here (writes (codes "x\ny"))) (polls 2 on)) (truncates 3))
      (polls 0 still_running)

Run-Extends_example : Extends opened_at cut_off
Run-Extends_example = Run-Extends opened_at cut_off tailing
