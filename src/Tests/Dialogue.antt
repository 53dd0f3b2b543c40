-- ===== src/Tests/Dialogue.antt =====
-- A text that arrives in pieces (src/eeveetuber/dialogue/assembler.py).
use eeveetuber.Common.{◌≡◌, refl, List, ◌++◌, some, arith}
use eeveetuber.Common.Text.{codes}
use eeveetuber.Dialogue.Assembler.{Assembler, UtteranceSegment, new, search, push}
use eeveetuber.Dialogue.Assembler.Visible.{squeeze}
use eeveetuber.Dialogue.Assembler.Content.{IsReady, spoken, push-IsTotal}

new-IsReady : IsReady 20 new
unfolding search
new-IsReady = record {
  idle = record { unfinished = refl; short = omega arith };
  numbered = tt;
  voiced = tt;
}

push-IsTotal_example :
    (r : Assembler × List UtteranceSegment) × ((push 20 (codes "Hello there! How are") new ≡ some r)
      × (IsReady 20 r.0
          × ((r.0.segments ≡ r.1)
              × (squeeze (spoken r.1) ++ squeeze r.0.buffer
                  ≡ squeeze (codes "Hello there! How are")))))
push-IsTotal_example = push-IsTotal 20 (codes "Hello there! How are") new (omega arith) new-IsReady
