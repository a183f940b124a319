-- ===== src/Api/Hub/Order.antt =====
-- Each client of internal/api/sse.go gets its messages in order, with none changed or taken back.
use sugi.Base.{◌≡◌, Option, none, some, List, [], ◌∷◌, ◌++◌}
use sugi.Base.Text.{Text}
use sugi.Api.Hub.{SseHub, Channel, Phase}

-- All that a client has written and still has buffered.
abbrev pub stream : Channel → List Text
stream c = c.out ++ c.buf

-- A handler is not registered yet, it is in its loop, or it has left that.
pub data Stage : Type 0 where
  new flowing over : Stage

abbrev pub stage_of : Phase → Stage
stage_of Phase.registering = Stage.new
stage_of Phase.streaming = Stage.flowing
stage_of Phase.leaving = Stage.over
stage_of Phase.gone = Stage.over

-- From `c` to `d`, at the stages of each. In the loop the stream only gets longer; a handler that
-- has left the loop has written a first part of such a stream, and writes no more.
abbrev pub ExtendsAt : Stage → Stage → Channel → Channel → Type 0
ExtendsAt Stage.new b c d = Unit
ExtendsAt Stage.flowing Stage.new c d = ⊥
ExtendsAt Stage.flowing Stage.flowing c d = (more : List Text) × (stream d ≡ stream c ++ more)
ExtendsAt Stage.flowing Stage.over c d =
    (more : List Text) × ((unwritten : List Text) × (stream c ++ more ≡ d.out ++ unwritten))
ExtendsAt Stage.over Stage.over c d = d.out ≡ c.out
ExtendsAt Stage.over b c d = ⊥

abbrev pub Extends : Channel → Channel → Type 0
Extends c d = ExtendsAt (stage_of c.phase) (stage_of d.phase) c d

-- So for every channel of the first list, at its place in the second.
abbrev pub Grown : List Channel → List Channel → Type 0
Grown [] ds = Unit
Grown (c ∷ cs) [] = ⊥
Grown (c ∷ cs) (d ∷ ds) = Extends c d × Grown cs ds

-- What an action that does not panic leads to.
abbrev Grows : SseHub → Option SseHub → Type 0
Grows h none = Unit
Grows h (some h') = Grown h.channels h'.channels
