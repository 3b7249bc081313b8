-- ===== src/Tests/Headers.antt =====
-- Headers that end with a block of attributes.
use lowdown.Prelude.{◌≡◌, refl, false, [], none, codes}
use lowdown.Tree.{Kind, Nodes, node, nil, cons}
use lowdown.Parse.Attrs.{Attrs}
use lowdown.Parse.Attrs.Block.{lowdown_attrs_parse}
use lowdown.Parse.Header.{last_node, headed, parse_header_ext_attrs}
use lowdown.Parse.Header.Braces.{NoBrace, parse_header_ext_attrs-empty}
use lowdown.Parse.Header.Cut.{by_block, with_left, parse_header_ext_attrs-block}

abbrev bare : Attrs
bare = record { array = none; attrsz = 0 }

abbrev marked : Nodes
marked = cons (node 1 (Kind.normal_text false (codes "a {#b}")) nil) nil

abbrev unmarked : Nodes
unmarked = cons (node 1 (Kind.normal_text false (codes "a {}")) nil) nil

parse_header_ext_attrs-block_example :
    parse_header_ext_attrs marked bare []
    ≡ by_block marked
        (with_left nil 1 false (codes "a") nil)
        (lowdown_attrs_parse (codes "#b") bare [])
unfolding NoBrace
parse_header_ext_attrs-block_example =
    parse_header_ext_attrs-block nil (codes "a") 1 (codes "#b") 1 false nil bare [] refl
      (refl, (refl, tt))

parse_header_ext_attrs-empty_example :
    parse_header_ext_attrs unmarked bare [] ≡ headed false unmarked bare []
unfolding last_node
parse_header_ext_attrs-empty_example =
    parse_header_ext_attrs-empty (codes "a ") unmarked nil 1 false bare [] refl
