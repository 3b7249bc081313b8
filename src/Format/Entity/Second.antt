-- ===== src/Format/Entity/Second.antt =====
-- The table ents of src/format/entity.c, from lArr.
use lowdown.Prelude.{List, [], ◌∷◌, none, some, codes}
use lowdown.Format.Entity.Entry.{Ent, ent}

abbrev pub ents_second : List Ent
ents_second =
    ent (codes "lArr") 8656 none (some (codes "Leftarrow")) 1
    ∷ ent (codes "lambda") 955 (some (codes "*l")) (some (codes "lambda")) 1
    ∷ ent (codes "lang") 9001 (some (codes "la")) (some (codes "langle")) 1
    ∷ ent (codes "laquo") 171 (some (codes "Fo")) (some (codes "guillemetleft{}")) 0
    ∷ ent (codes "larr") 8592 (some (codes "<-")) (some (codes "leftarrow")) 1
    ∷ ent (codes "lceil") 8968 none (some (codes "lceil")) 1
    ∷ ent (codes "ldquo") 8220 (some (codes "lq")) (some (codes "``")) 2
    ∷ ent (codes "le") 8804 none (some (codes "leq")) 1
    ∷ ent (codes "lfloor") 8970 (some (codes "lf")) (some (codes "lfloor")) 1
    ∷ ent (codes "lowast") 8727 none (some (codes "_\\ast")) 1
    ∷ ent (codes "lrm") 8206 none none 0
    ∷ ent (codes "lsaquo") 8249 none none 0
    ∷ ent (codes "lsquo") 8216 (some (codes "oq")) (some (codes "`")) 2
    ∷ ent (codes "lt") 60 none (some (codes "textless{}")) 0
    ∷ ent (codes "macr") 175 none (some (codes "={}")) 0
    ∷ ent (codes "mdash") 8212 (some (codes "em")) (some (codes "---")) 2
    ∷ ent (codes "micro") 181 none (some (codes "textmu{}")) 0
    ∷ ent (codes "middot") 183 none (some (codes "textperiodcentered{}")) 0
    ∷ ent (codes "minus") 8722 (some (codes "mi")) (some (codes "-{}")) 0
    ∷ ent (codes "mu") 956 (some (codes "*m")) (some (codes "mu")) 1
    ∷ ent (codes "nabla") 8711 none (some (codes "nabla")) 1
    ∷ ent (codes "nbsp") 160 (some (codes "~")) (some (codes "~")) 2
    ∷ ent (codes "ndash") 8211 (some (codes "en")) (some (codes "--")) 2
    ∷ ent (codes "ne") 8800 (some (codes "!=")) (some (codes "not=")) 1
    ∷ ent (codes "ni") 8715 none (some (codes "ni")) 1
    ∷ ent (codes "not") 172 (some (codes "no")) (some (codes "lnot")) 1
    ∷ ent (codes "notin") 8713 none (some (codes "not\\in")) 1
    ∷ ent (codes "nsub") 8836 none (some (codes "not\\subset")) 1
    ∷ ent (codes "ntilde") 241 (some (codes "~n")) (some (codes "~{n}")) 0
    ∷ ent (codes "nu") 957 (some (codes "*n")) (some (codes "nu")) 1
    ∷ ent (codes "oacute") 243 (some (codes "'o")) (some (codes "'{o}")) 0
    ∷ ent (codes "ocirc") 244 (some (codes "^o")) (some (codes "^{o}")) 0
    ∷ ent (codes "oelig") 339 (some (codes "oe")) (some (codes "oe{}")) 0
    ∷ ent (codes "ograve") 242 (some (codes "`o")) (some (codes "`{o}")) 0
    ∷ ent (codes "oline") 8254 none (some (codes "ominus")) 1
    ∷ ent (codes "omega") 969 (some (codes "*w")) (some (codes "omega")) 1
    ∷ ent (codes "omicron") 959 (some (codes "*o")) (some (codes "omicron")) 1
    ∷ ent (codes "oplus") 8853 none (some (codes "oplus")) 1
    ∷ ent (codes "or") 8744 (some (codes "OR")) (some (codes "vee")) 1
    ∷ ent (codes "ordf") 170 none (some (codes "textordfeminine{}")) 0
    ∷ ent (codes "ordm") 186 none (some (codes "textordmasculine{}")) 0
    ∷ ent (codes "oslash") 248 (some (codes "/o")) (some (codes "oslash")) 1
    ∷ ent (codes "otilde") 245 (some (codes "~o")) (some (codes "~{o}")) 0
    ∷ ent (codes "otimes") 8855 none (some (codes "otimes")) 1
    ∷ ent (codes "ouml") 246 (some (codes ":o")) (some (codes "\"{o}")) 0
    ∷ ent (codes "para") 182 none (some (codes "P{}")) 0
    ∷ ent (codes "part") 8706 (some (codes "pd")) (some (codes "partial")) 1
    ∷ ent (codes "permil") 8240 none (some (codes "textperthousand{}")) 0
    ∷ ent (codes "perp") 8869 none (some (codes "perp")) 1
    ∷ ent (codes "phi") 966 (some (codes "*f")) (some (codes "phi")) 1
    ∷ ent (codes "pi") 960 (some (codes "*p")) (some (codes "pi")) 1
    ∷ ent (codes "piv") 982 (some (codes "+p")) (some (codes "varpi")) 1
    ∷ ent (codes "plusmn") 177 (some (codes "+-")) (some (codes "pm")) 1
    ∷ ent (codes "pound") 163 none (some (codes "pounds{}")) 0
    ∷ ent (codes "prime") 8242 none (some (codes "^\\prime{}")) 3
    ∷ ent (codes "prod") 8719 (some (codes "poduct")) (some (codes "prod")) 1
    ∷ ent (codes "prop") 8733 none (some (codes "propto")) 1
    ∷ ent (codes "psi") 968 (some (codes "*q")) (some (codes "psi")) 1
    ∷ ent (codes "quot") 34 none (some (codes "\"")) 2
    ∷ ent (codes "rArr") 8658 none (some (codes "Rightarrow")) 1
    ∷ ent (codes "radic") 8730 none (some (codes "surd")) 1
    ∷ ent (codes "rang") 9002 (some (codes "ra")) (some (codes "rangle")) 1
    ∷ ent (codes "raquo") 187 (some (codes "Fc")) (some (codes "guillemotright{}")) 0
    ∷ ent (codes "rarr") 8594 (some (codes "->")) (some (codes "rightarrow")) 1
    ∷ ent (codes "rceil") 8969 none (some (codes "rceil")) 1
    ∷ ent (codes "rdquo") 8221 (some (codes "rq")) (some (codes "''")) 2
    ∷ ent (codes "real") 8476 none (some (codes "Re")) 1
    ∷ ent (codes "reg") 174 (some (codes "rg")) (some (codes "textregistered{}")) 0
    ∷ ent (codes "rfloor") 8971 (some (codes "rf")) (some (codes "rfloor")) 1
    ∷ ent (codes "rho") 961 (some (codes "*r")) (some (codes "rho")) 1
    ∷ ent (codes "rlm") 8207 none none 0
    ∷ ent (codes "rsaquo") 8250 none none 0
    ∷ ent (codes "rsquo") 8217 (some (codes "cq")) (some (codes "'")) 2
    ∷ ent (codes "sbquo") 8218 none none 0
    ∷ ent (codes "scaron") 353 (some (codes "vs")) (some (codes "v{s}")) 0
    ∷ ent (codes "sdot") 8901 none (some (codes "cdot")) 1
    ∷ ent (codes "sect") 167 (some (codes "sc")) (some (codes "S{}")) 0
    ∷ ent (codes "shy") 173 none (some (codes "-{}")) 0
    ∷ ent (codes "sigma") 963 (some (codes "*s")) (some (codes "sigma")) 1
    ∷ ent (codes "sigmaf") 962 (some (codes "ts")) (some (codes "sigmav")) 1
    ∷ ent (codes "sim") 8764 (some (codes "ap")) (some (codes "sim")) 1
    ∷ ent (codes "sub") 8834 (some (codes "sb")) (some (codes "subset")) 1
    ∷ ent (codes "sube") 8838 (some (codes "ib")) (some (codes "subseteq")) 1
    ∷ ent (codes "sum") 8721 (some (codes "sum")) (some (codes "sum")) 1
    ∷ ent (codes "sup") 8835 (some (codes "sp")) (some (codes "supset")) 1
    ∷ ent (codes "sup1") 185 (some (codes "S1")) (some (codes "$^1$")) 2
    ∷ ent (codes "sup2") 178 (some (codes "S2")) (some (codes "$^2$")) 2
    ∷ ent (codes "sup3") 179 (some (codes "S3")) (some (codes "$^3$")) 2
    ∷ ent (codes "supe") 8839 (some (codes "ip")) (some (codes "supseteq")) 1
    ∷ ent (codes "szlig") 223 (some (codes "ss")) (some (codes "ss{}")) 0
    ∷ ent (codes "tau") 964 (some (codes "*t")) (some (codes "tau")) 1
    ∷ ent (codes "there4") 8756 (some (codes "3d")) (some (codes "therefore")) 1
    ∷ ent (codes "theta") 952 (some (codes "*h")) (some (codes "theta")) 1
    ∷ ent (codes "thetasym") 977 (some (codes "+h")) (some (codes "vartheta")) 1
    ∷ ent (codes "thinsp") 8201 none (some (codes "hspace{0.167em}")) 0
    ∷ ent (codes "thorn") 254 (some (codes "Tp")) (some (codes "th{}")) 0
    ∷ ent (codes "tilde") 732 (some (codes "ti")) (some (codes "~{}")) 0
    ∷ ent (codes "times") 215 (some (codes "mu")) (some (codes "times")) 1
    ∷ ent (codes "trade") 8482 (some (codes "tm")) (some (codes "texttrademark{}")) 0
    ∷ ent (codes "uArr") 8657 none (some (codes "Uparrow")) 1
    ∷ ent (codes "uacute") 250 (some (codes "'u")) (some (codes "'{u}")) 0
    ∷ ent (codes "uarr") 8593 (some (codes "ua")) (some (codes "uparrow")) 1
    ∷ ent (codes "ucirc") 251 (some (codes "^u")) (some (codes "^{u}")) 0
    ∷ ent (codes "ugrave") 249 (some (codes "`u")) (some (codes "`{u}")) 0
    ∷ ent (codes "uml") 168 (some (codes "ad")) (some (codes "\"{}")) 0
    ∷ ent (codes "upsih") 978 none none 0
    ∷ ent (codes "upsilon") 965 (some (codes "*u")) (some (codes "upsilon")) 1
    ∷ ent (codes "uuml") 252 (some (codes ":u")) (some (codes "\"{u}")) 0
    ∷ ent (codes "weierp") 8472 (some (codes "wp")) (some (codes "wp")) 1
    ∷ ent (codes "xi") 958 (some (codes "*c")) (some (codes "xi")) 1
    ∷ ent (codes "yacute") 253 (some (codes "'y")) (some (codes "'{y}")) 0
    ∷ ent (codes "yen") 165 (some (codes "Ye")) (some (codes "textyen{}")) 0
    ∷ ent (codes "yuml") 255 (some (codes ":y")) (some (codes "\"{y}")) 0
    ∷ ent (codes "zeta") 950 (some (codes "*z")) (some (codes "zeta")) 1
    ∷ ent (codes "zwj") 8205 none none 0
    ∷ ent (codes "zwnj") 8204 none none 0
    ∷ []
