-- ===== src/Tree.antt =====
-- The parse tree: struct lowdown_node of src/lowdown.h.
--
-- A kind has the members of its struct that the functions modelled here read: texts, numbers, flags
-- and extended attributes. Left out are what only other renderers read, and the links to the parent
-- and to the siblings, which the nesting of the data says. The type of a change is a function of
-- the identifier of the node, where it is read.
use lowdown.Prelude.{ℕ, Bool, Bytes}
use lowdown.Parse.Attrs.{Attrs}

-- enum halink_type, enum blockquote_type and enum admonition_type.
pub data HalinkType : Type 0 where
  none normal email : HalinkType

pub data BlockquoteType : Type 0 where
  regular admonition admonition_block : BlockquoteType

pub data AdmonitionType : Type 0 where
  none note callout warning : AdmonitionType

-- enum lowdown_chng.
pub data Chng : Type 0 where
  none insert delete : Chng

-- enum lowdown_rndrt.
pub data Kind : Type 0 where
  root : Kind
  -- The text and the language.
  blockcode : Bytes → Bytes → Kind
  blockquote : BlockquoteType → AdmonitionType → Kind
  -- The flags.
  definition : ℕ → Kind
  definition_title definition_data : Kind
  -- The level.
  header : ℕ → Attrs → Kind
  hrule : Kind
  -- The flags and the first number.
  list : ℕ → ℕ → Kind
  -- The flags.
  listitem : ℕ → Kind
  paragraph table_block table_header table_body table_row : Kind
  -- The flags.
  table_cell : ℕ → Kind
  blockhtml : Bytes → Kind
  link_auto : Bytes → HalinkType → Kind
  codespan : Bytes → Kind
  double_emphasis emphasis highlight : Kind
  -- The link, the title, the dimensions and the alternative text.
  image : Bytes → Bytes → Bytes → Bytes → Attrs → Kind
  linebreak : Kind
  -- The link and the title.
  link : Bytes → Bytes → Attrs → Kind
  triple_emphasis strikethrough subscript superscript footnote : Kind
  -- The text, and whether it is a block.
  math_block : Bytes → Bool → Kind
  raw_html : Bytes → Kind
  entity : Bytes → Kind
  -- Whether HTEXT_ESCAPED is set, and the text.
  normal_text : Bool → Bytes → Kind
  doc_header : Kind
  meta : Bytes → Kind

-- A node has its identifier, its kind and its children.
mutual
  pub data Node : Type 0 where
    node : ℕ → Kind → Nodes → Node

  pub data Nodes : Type 0 where
    nil : Nodes
    cons : Node → Nodes → Nodes
