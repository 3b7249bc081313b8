-- ===== src/Render/Meta.antt =====
-- The metadata of a document: rndr_meta_multi, rndr_root and rndr_doc_header of
-- src/format/html/html.c, and rcsdate2str of src/format/util.c. What sscanf() stores of a text by a
-- format is a parameter. A NULL key is compared by strcasecmp(): a fault.
use lowdown.Prelude.{
  ℕ, zero, suc, Bool, true, false, not, ◌&&◌, List, [], ◌∷◌, ◌++◌, map, Option, none, some, Bytes,
  codes, length, take, drop, get_or, last_or, is_nil, bytes_eq, begins, ltb, ◌==◌, if◌then◌else◌,
  isspace, isdigit, tolower, skip_isspace,
}
use lowdown.Buffer.{Buf, M, fault, ◌>>◌, done, hbuf_put, hbuf_putb, hbuf_puts}
use lowdown.Format.Html.{lowdown_html_esc_attr, lowdown_html_esc_href}
use lowdown.Format.Author.{rcsauthor2str}
use lowdown.Ident.{decimal}
use lowdown.Render.{Html, flag, standalone, html_titleblock, escape_html}

-- The bytes in front of two white-space bytes, and those from there on.
unfoldable pub value_of : Bytes → Bytes
unfolding isspace
value_of [] = []
value_of (c ∷ []) = c ∷ []
value_of (c ∷ d ∷ cs) =
    let more = c ∷ value_of (d ∷ cs) in if isspace c && isspace d then [] else more

unfoldable pub behind_value : Bytes → Bytes
unfolding isspace
behind_value [] = []
behind_value (c ∷ []) = []
behind_value (c ∷ d ∷ cs) =
    let later = behind_value (d ∷ cs) in if isspace c && isspace d then c ∷ d ∷ cs else later

-- The escape that the arguments `href` and `attr` choose.
unfoldable pub multi_escape : Html → Bool → Bool → Bytes → M (Unit {0})
multi_escape st href attr d =
    if attr
    then lowdown_html_esc_attr d
    else if href
    then lowdown_html_esc_href d
    else escape_html d st

-- `for (i = 0; i < bsz; i++)`, from the bytes behind `i`.
unfoldable pub multi_loop : ℕ → Html → Bool → Bool → Bytes → Bytes → Bytes → M (Unit {0})
unfolding value_of behind_value multi_escape
multi_loop zero st href attr starttag endtag b = elim (is_nil b) [
  | true ↦ done
  | false ↦ λ s. fault
]
multi_loop (suc fuel) st href attr starttag endtag b =
    let start = skip_isspace b in
    let later = multi_loop fuel st href attr starttag endtag (drop 1 (behind_value start)) in
    if is_nil start
    then done
    else if is_nil (value_of start)
    then later
    else hbuf_puts starttag
      >> (multi_escape st href attr (value_of start)
          >> (hbuf_puts endtag >> (hbuf_put (codes "\n") >> later)))

unfoldable pub rndr_meta_multi : Html → Option Bytes → Bool → Bool → Bytes → Bytes → M (Unit {0})
unfolding multi_loop
rndr_meta_multi st none href attr starttag endtag = done
rndr_meta_multi st (some b) href attr starttag endtag =
    multi_loop (length b) st href attr starttag endtag b

-- strcasecmp() for equality.
unfoldable pub same_key : Bytes → Bytes → Bool
same_key a b = bytes_eq (map tolower a) (map tolower b)

-- The value of the last entry with a key, among those given.
unfoldable pub meta_value : List (Option Bytes × Option Bytes) → Bytes → Option Bytes → Option Bytes
unfolding same_key
meta_value [] name now = now
meta_value ((none, value) ∷ mq) name now = now
meta_value ((some key, value) ∷ mq) name now =
    let found = meta_value mq name value in
    let other = meta_value mq name now in if same_key key name then found else other

unfoldable pub all_keys : List (Option Bytes × Option Bytes) → Bool
all_keys [] = true
all_keys ((none, value) ∷ mq) = false
all_keys ((some key, value) ∷ mq) = all_keys mq

unfoldable pub or_else : Option Bytes → Option Bytes → Option Bytes
or_else (some x) y = some x
or_else none y = y

-- A text written between two others, if there is one.
unfoldable pub between_texts : Option Bytes → Bytes → (Bytes → M (Unit {0})) → Bytes → M (Unit {0})
between_texts none before escape after = done
between_texts (some d) before escape after = hbuf_put before >> (escape d >> hbuf_put after)

unfoldable pub is_iso_date : Bytes → Bool
is_iso_date d =
    length d == 10
    && isdigit (get_or d 0 0)
    && isdigit (get_or d 1 0)
    && isdigit (get_or d 2 0)
    && isdigit (get_or d 3 0)
    && get_or d 4 0 == b'-'
    && isdigit (get_or d 5 0)
    && isdigit (get_or d 6 0)
    && get_or d 7 0 == b'-'
    && isdigit (get_or d 8 0)
    && isdigit (get_or d 9 0)

-- The raw header; the last byte of an empty one is read in front of it.
unfoldable pub put_header : Option Bytes → M (Unit {0})
put_header none = done
put_header (some header) =
    hbuf_puts header
    >> (if is_nil header
        then (λ s. fault)
        else if last_or header 0 == b'\n'
        then done
        else hbuf_put (codes "\n"))

-- `%.2u`
unfoldable pub two_digits : ℕ → Bytes
two_digits n = if ltb n 10 then b'0' ∷ decimal n else decimal n

-- The static buffer has room for 31 bytes and a NUL.
unfoldable pub iso_date : List ℕ → Option Bytes
unfolding two_digits
iso_date (y ∷ m ∷ d ∷ _) =
    some (take 31 (decimal y ++ (b'-' ∷ (two_digits m ++ (b'-' ∷ two_digits d)))))
iso_date _ = none

-- The text behind the keyword of a date.
unfoldable pub behind_date : Bytes → Option Bytes
behind_date v =
    if begins (codes "$Date: ") v
    then some (drop 7 v)
    else if begins (codes "$DateTime: ") v
    then some (drop 11 v)
    else none

module _ (sscanf : Bytes → Bytes → List ℕ) where
  -- The three first numbers, by the first format that stores all of its numbers.
  unfoldable pub date_numbers : Bytes → Option Bytes
  unfolding iso_date
  date_numbers v =
      let long = sscanf (codes "%u/%u/%u %u:%u:%u") v in
      let long_escaped = sscanf (codes "%u&#47;%u&#47;%u %u:%u:%u") v in
      let short = sscanf (codes "%u/%u/%u") v in
      if length long == 6
      then iso_date long
      else if length long_escaped == 6
      then iso_date long_escaped
      else if length short == 3
      then iso_date short
      else iso_date (sscanf (codes "%u&#47;%u&#47;%u") v)

  unfoldable pub rcsdate2str : Option Bytes → Option Bytes
  unfolding behind_date date_numbers
  rcsdate2str none = none
  rcsdate2str (some v) =
      if ltb (length v) 12
      then none
      else elim (behind_date (if begins (codes "\\") v then drop 1 v else v)) [
        | none ↦ none
        | some d ↦ date_numbers d
      ]

  -- The author and the date, with the overrides.
  unfoldable pub author_text : Html → Option Bytes
  unfolding meta_value or_else
  author_text st =
      or_else (rcsauthor2str (meta_value st.metaq (codes "rcsauthor") none))
        (meta_value st.metaq (codes "author") none)

  unfoldable pub date_of : Html → Option Bytes
  unfolding meta_value or_else rcsdate2str
  date_of st =
      or_else (rcsdate2str (meta_value st.metaq (codes "rcsdate") none))
        (meta_value st.metaq (codes "date") none)

  unfoldable pub put_date : Option Bytes → M (Unit {0})
  unfolding is_iso_date
  put_date none = done
  put_date (some date) =
      hbuf_put (codes "<meta name=\"date\" ")
      >> ((if is_iso_date date then hbuf_put (codes "scheme=\"YYYY-MM-DD\" ") else done)
          >> (hbuf_put (codes "content=\"")
              >> (lowdown_html_esc_attr date >> hbuf_put (codes "\" />\n"))))

  unfoldable pub open_html : Option Bytes → M (Unit {0})
  open_html none = hbuf_put (codes "<html>\n")
  open_html (some lang) =
      hbuf_put (codes "<html lang=\"") >> (lowdown_html_esc_attr lang >> hbuf_put (codes "\">\n"))

  -- The elements of the head that come from metadata.
  unfoldable pub put_metas : Html → M (Unit {0})
  unfolding meta_value rndr_meta_multi author_text date_of put_date
  put_metas st =
      rndr_meta_multi st (meta_value st.metaq (codes "affiliation") none) false true
        (codes "<meta name=\"creator\" content=\"") (codes "\" />")
      >> (rndr_meta_multi st (author_text st) false true (codes "<meta name=\"author\" content=\"")
            (codes "\" />")
          >> (rndr_meta_multi st (meta_value st.metaq (codes "copyright") none) false true
                (codes "<meta name=\"copyright\" content=\"") (codes "\" />")
              >> (put_date (date_of st)
                  >> (rndr_meta_multi st (meta_value st.metaq (codes "css") none) true false
                        (codes "<link rel=\"stylesheet\" href=\"") (codes "\" />")
                      >> rndr_meta_multi st (meta_value st.metaq (codes "javascript") none) true
                          false (codes "<script src=\"") (codes "\"></script>")))))

  unfoldable pub rndr_root : Buf → Html → M (Unit {0})
  unfolding meta_value all_keys open_html put_metas put_header between_texts
  rndr_root content st =
      if not (flag st.flags standalone)
      then hbuf_putb content
      else if not (all_keys st.metaq)
      then (λ s. fault)
      else hbuf_put (codes "<!DOCTYPE html>\n")
        >> (open_html (meta_value st.metaq (codes "lang") none)
            >> (hbuf_put (
                  codes
                    "<head>\n<meta charset=\"utf-8\" />\n<meta name=\"viewport\" content=\"width=device-width,initial-scale=1\" />\n")
                >> (put_metas st
                    >> (hbuf_put (codes "<title>")
                        >> ((elim (meta_value st.metaq (codes "title") none) [
                          | none ↦ done
                          | some title ↦ escape_html title st
                        ])
                            >> (hbuf_put (codes "</title>\n")
                                >> (put_header (meta_value st.metaq (codes "htmlheader") none)
                                    >> (hbuf_put (codes "</head>\n<body>\n")
                                        >> (hbuf_putb content
                                            >> hbuf_put (codes "</body>\n</html>\n"))))))))))

  unfoldable pub rndr_doc_header : Html → M (Unit {0})
  unfolding meta_value all_keys author_text date_of between_texts rndr_meta_multi
  rndr_doc_header st =
      let title = meta_value st.metaq (codes "title") none in
      if not (flag st.flags html_titleblock)
      then done
      else if not (all_keys st.metaq)
      then (λ s. fault)
      else (elim (or_else (author_text st) (or_else title (date_of st))) [
        | none ↦ done
        | some _ ↦
            hbuf_put (codes "<header id=\"title-block-header\">\n")
            >> (between_texts title (codes "<h1 class=\"title\">") (λ d. escape_html d st)
                  (codes "</h1>\n")
                >> (rndr_meta_multi st (author_text st) false false (codes "<p class=\"author\">")
                      (codes "</p>")
                    >> (between_texts (date_of st) (codes "<p class=\"date\">")
                          (λ d. escape_html d st) (codes "</p>\n")
                        >> hbuf_put (codes "</header>\n"))))
      ])
