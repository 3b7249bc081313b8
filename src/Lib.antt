-- ===== src/Lib.antt =====
-- lowdown: a Markdown translator. A document is parsed into a tree of nodes
-- (src/parse/document.c, with src/parse/autolink.c for links that stand in a text with no
-- markup), which a renderer of src/format writes out as HTML, LaTeX, roff, gemtext and others.
-- All output goes through the growing byte buffer of src/buffer.c, and all text from the
-- document through the escape function of its format.
--
-- Buffer models src/buffer.c: `Buf` is struct lowdown_buf with the size of its real allocation,
-- and a function that writes is a state transformer `M` with three outcomes: it returns, it
-- fails after a refused allocation, or it is undefined (`fault`). Which allocations are granted
-- is a schedule, an argument of the state, so that a theorem holds for every pattern of
-- refusals. Its children state what a writer promises (Buffer/Writes), prove it for each
-- function (Buffer/Put, Buffer/Print), and model the copies and comparisons (Buffer/Copy), the
-- readers of links (Buffer/Link), the identifiers (Buffer/Name) and the C strings (Buffer/Text).
--
-- Format models the escapes: Format/Html is src/format/html/html_escape.c, Format/Latex is
-- src/format/latex/latex_escape.c, Format/Roff is src/format/roff/roff_escape.c and
-- Format/Gemini is src/format/gemini/gemini_escape.c; Format/Author is rcsauthor2str of
-- src/format/util.c, and Format/Entity the look-up of entities of src/format/entity.c, with
-- strtoull as the C standard has it. The readers that they are proved against (html_decode,
-- typeset, roff_read) are written from the rules of the formats.
--
-- Parse/Autolink models src/parse/autolink.c, and Parse/Lines the recognisers of lines and of
-- the prefixes of blocks of src/parse/document.c, with is_mail_autolink of the same file in
-- Parse/Mail; Parse/Attrs models the table of extended attributes and the parser of a block of
-- them, of src/parse/ext_attrs.c, and Parse/Header is parse_header_ext_attrs of
-- src/parse/document.c, which uses them. Parse/Attrs/Keys says which attribute a key names and what
-- the value in a text is. A read outside the text is undefined.
--
-- Tree is struct lowdown_node of src/lowdown.h. Ident models hbuf_extract_text and hbuf_id of
-- src/buffer.c, which give a section its identifier, and Smarty models
-- src/library/smartypants.c, which puts typographic entities in the place of symbols in the
-- texts of a tree: the loops over the children of a node become recursion on them, and the
-- parent links of the walk to the right become an argument that says what stands behind the
-- parent.
--
-- Render models the renderer for HTML, src/format/html/html.c, with lowdown_get_meta and
-- rcsdate2str of src/format/util.c. Render, Render/Block and Render/Table have the
-- functions that render a node, Render/Link those that print extended attributes, Render/Meta those
-- for metadata, Render/State what a function that changes the state leaves and the headers,
-- Render/Foot the footnotes, Render/Change the marks of changes and Render/Walk the walk over the
-- tree and the entry point. Render/Scan describes
-- what a well-formed text is, by a scanner that keeps the open elements, and Render/Emits what a
-- writer is that takes the scanner from one of its states to another; the other children prove
-- that for each function, up to the walk in Render/Whole and Render/Document, for the trees of
-- Render/Nodes (a document without metadata), with what becomes of the queue of identifiers
-- (Render/Moves, Render/Names).
--
-- Library models what lowdown_buf of src/library/library.c does behind the parser, for output as
-- HTML: the rewriter of Smarty and the renderer of Render on one tree. Library/Typeset shows that
-- what the first leaves is in order for the second.
--
-- Names of definitions are those of the C functions; a loop or a switch inside a function has a
-- definition of its own beside it. Bytes are unsigned. size_t has 64 bits, and its wrap-around
-- is written out; the theorems ask for room in it. The loop of hbuf_putf runs on fuel, one round
-- more than the stream has bytes, the loop of autolink_delim on one round more than the length,
-- the counter of hbuf_id on one more than the queue is long, the loop over the pieces of a text
-- in Smarty and that over the words of a block of attributes on one more than the text is long;
-- all are proved to be enough. In Render the loop of a paragraph with hard line breaks, that over
-- the values of metadata and the search in a footnote run on the length of the text. What
-- sscanf() and strtonum() read are parameters of the functions that call them.
--
-- Not modelled: freeing of memory, the rest of the parser, the other renderers, the differ, the
-- templates, the entry points that parse or read files, and the command line. src/diff/libdiff.c is
-- a copy of a separate library.
pub mod Prelude
pub mod Buffer
pub mod Format
pub mod Parse
pub mod Tree
pub mod Ident
pub mod Smarty
pub mod Render
pub mod Library
pub mod Tests
