-- ===== src/Library.antt =====
-- The library's entry points, src/library/library.c: what lowdown_buf does behind the parser, for
-- output as HTML. The options are the flags, `none` for NULL. What the call frees is not modelled.
pub mod Typeset
pub mod Whole
use lowdown.Prelude.{ℕ, true, false, List, Option, none, some, Bytes, if◌then◌else◌}
use lowdown.Tree.{Chng, Node}
use lowdown.Buffer.{Sched, Out, Res, ok, failed, fault, rest}
use lowdown.Buffer.Copy.{Made, made, broken, hbuf_new}
use lowdown.Smarty.{Outcome, done, smarty}
use lowdown.Render.{ℤ, Html, flag}
use lowdown.Render.State.{Rendered, rendered, lost}
use lowdown.Render.Walk.{lowdown_html_rndr, lowdown_html_new}

abbrev pub smarty_typography : ℕ
smarty_typography = 64

-- HBUF_START_BIG.
abbrev pub start_big : ℕ
start_big = 4096

-- What the call leaves: the text in `*res` where it returns one, or `none` where it returns zero.
pub data Returned : Type 0 where
  returned : Option Bytes → Returned
  undefined : Returned

-- `opts != NULL && (opts->oflags & LOWDOWN_SMARTY)`
unfoldable pub typeset : Option ℕ → Node → ℕ → Sched → Outcome (Option Node)
typeset none n maxn m = done (some n) maxn m
typeset (some oflags) n maxn m =
    if flag oflags smarty_typography then smarty (some n) maxn m else done (some n) maxn m

unfoldable pub res_of : Rendered → Returned
res_of (rendered true _ t) = returned (some t.ob.content)
res_of (rendered false _ t) = returned none
res_of lost = undefined

-- The two functions of the C library that the renderer calls, and the changes of the nodes.
module _ (sscanf : Bytes → Bytes → List ℕ) (strtonum : Bytes → ℤ → ℤ → Option ℤ)
    (chng : ℕ → Chng) where
  -- lowdown_render for LOWDOWN_HTML, with the buffer, and what lowdown_buf returns of it.
  unfoldable pub render_with : Option Html → Node → Out → Returned
  unfolding res_of
  render_with none n s = returned none
  render_with (some st) n s =
      res_of (lowdown_html_rndr sscanf strtonum chng n st (record s { sched = rest s.sched }))

  unfoldable pub lowdown_render : Option ℕ → Node → Out → Returned
  unfolding render_with
  lowdown_render opts n s = render_with (lowdown_html_new opts s.sched) n s

  unfoldable pub render_new : Option ℕ → Node → Made → Returned
  unfolding lowdown_render
  render_new opts n (made (some ob) m) = lowdown_render opts n (record { ob = ob; sched = m })
  render_new opts n (made none m) = returned none
  render_new opts n broken = undefined

  unfoldable pub render_typeset : Option ℕ → Outcome (Option Node) → Returned
  unfolding render_new
  render_typeset opts (done (some n) _ m) = render_new opts n (hbuf_new start_big m)
  render_typeset opts (done none _ m) = undefined
  render_typeset opts Outcome.failed = returned none
  render_typeset opts Outcome.undefined = undefined

  -- lowdown_buf with the tree and the next identifier that the parser has given.
  unfoldable pub lowdown_buf_parsed : Option ℕ → Node → ℕ → Sched → Returned
  unfolding typeset render_typeset
  lowdown_buf_parsed opts n maxn m = render_typeset opts (typeset opts n maxn m)
