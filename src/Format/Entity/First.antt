-- ===== src/Format/Entity/First.antt =====
-- The table ents of src/format/entity.c, up to kappa.
use lowdown.Prelude.{List, [], ◌∷◌, none, some, codes}
use lowdown.Format.Entity.Entry.{Ent, ent}

abbrev pub ents_first : List Ent
ents_first =
    ent (codes "AElig") 198 (some (codes "AE")) (some (codes "AE{}")) 0
    ∷ ent (codes "Aacute") 193 (some (codes "'A")) (some (codes "'{A}")) 0
    ∷ ent (codes "Acirc") 194 (some (codes "^A")) (some (codes "^{A}")) 0
    ∷ ent (codes "Agrave") 192 (some (codes "`A")) (some (codes "`{A}")) 0
    ∷ ent (codes "Alpha") 913 (some (codes "*A")) (some (codes "A")) 2
    ∷ ent (codes "Aring") 197 (some (codes "oA")) (some (codes "AA{}")) 0
    ∷ ent (codes "Atilde") 195 (some (codes "~A")) (some (codes "~{A}")) 0
    ∷ ent (codes "Auml") 196 (some (codes ":A")) (some (codes "\"{A}")) 0
    ∷ ent (codes "Beta") 914 (some (codes "*B")) (some (codes "B")) 2
    ∷ ent (codes "Ccedil") 199 (some (codes ",C")) (some (codes "c{C}")) 0
    ∷ ent (codes "Chi") 935 (some (codes "*X")) (some (codes "X")) 2
    ∷ ent (codes "Dagger") 8225 (some (codes "dg")) (some (codes "ddag{}")) 0
    ∷ ent (codes "Delta") 916 (some (codes "*D")) (some (codes "Delta")) 1
    ∷ ent (codes "ETH") 208 (some (codes "-D")) (some (codes "DH{}")) 0
    ∷ ent (codes "Eacute") 201 (some (codes "'E")) (some (codes "'{E}")) 0
    ∷ ent (codes "Ecirc") 202 (some (codes "^E")) (some (codes "^{E}")) 0
    ∷ ent (codes "Egrave") 200 (some (codes "`E")) (some (codes "`{E}")) 0
    ∷ ent (codes "Epsilon") 917 (some (codes "*E")) (some (codes "E")) 2
    ∷ ent (codes "Eta") 919 (some (codes "*Y")) (some (codes "E")) 2
    ∷ ent (codes "Euml") 203 (some (codes ":E")) (some (codes "\"{E}")) 0
    ∷ ent (codes "Gamma") 915 (some (codes "*G")) (some (codes "Gamma")) 1
    ∷ ent (codes "Iacute") 205 (some (codes "'I")) (some (codes "'{I}")) 0
    ∷ ent (codes "Icirc") 206 (some (codes "^I")) (some (codes "^{I}")) 0
    ∷ ent (codes "Igrave") 204 (some (codes "`I")) (some (codes "`{I}")) 0
    ∷ ent (codes "Iota") 921 (some (codes "*I")) (some (codes "I")) 2
    ∷ ent (codes "Iuml") 207 (some (codes ":I")) (some (codes "\"{I}")) 0
    ∷ ent (codes "Kappa") 922 (some (codes "*K")) (some (codes "K")) 2
    ∷ ent (codes "Lambda") 923 (some (codes "*L")) (some (codes "Lambda")) 1
    ∷ ent (codes "Mu") 924 (some (codes "*M")) (some (codes "M")) 2
    ∷ ent (codes "Ntilde") 209 (some (codes "~N")) (some (codes "~{N}")) 0
    ∷ ent (codes "Nu") 925 (some (codes "*N")) (some (codes "N")) 2
    ∷ ent (codes "OElig") 338 (some (codes "OE")) (some (codes "OE{}")) 0
    ∷ ent (codes "Oacute") 211 (some (codes "'O")) (some (codes "'{O}")) 0
    ∷ ent (codes "Ocirc") 212 (some (codes "^O")) (some (codes "^{O}")) 0
    ∷ ent (codes "Ograve") 210 (some (codes "`O")) (some (codes "`{O}")) 0
    ∷ ent (codes "Omega") 937 (some (codes "*W")) (some (codes "Omega")) 1
    ∷ ent (codes "Omicron") 927 (some (codes "*O")) (some (codes "O")) 2
    ∷ ent (codes "Oslash") 216 (some (codes "/O")) (some (codes "O{}")) 0
    ∷ ent (codes "Otilde") 213 (some (codes "~O")) (some (codes "~{O}")) 0
    ∷ ent (codes "Ouml") 214 (some (codes ":O")) (some (codes "\"{O}")) 0
    ∷ ent (codes "Phi") 934 (some (codes "*F")) (some (codes "Phi")) 1
    ∷ ent (codes "Pi") 928 (some (codes "*P")) (some (codes "Pi")) 1
    ∷ ent (codes "Prime") 8243 none (some (codes "^{\\prime\\prime}")) 3
    ∷ ent (codes "Psi") 936 (some (codes "*Q")) (some (codes "Psi")) 1
    ∷ ent (codes "Rho") 929 (some (codes "*R")) (some (codes "R")) 2
    ∷ ent (codes "Scaron") 352 (some (codes "vS")) (some (codes "v{S}")) 0
    ∷ ent (codes "Sigma") 931 (some (codes "*S")) (some (codes "Sigma")) 1
    ∷ ent (codes "THORN") 222 (some (codes "TP")) (some (codes "TH{}")) 0
    ∷ ent (codes "Tau") 932 (some (codes "*T")) (some (codes "T")) 2
    ∷ ent (codes "Theta") 920 (some (codes "*H")) (some (codes "Theta")) 1
    ∷ ent (codes "Uacute") 218 (some (codes "'U")) (some (codes "'{U}")) 0
    ∷ ent (codes "Ucirc") 219 (some (codes "^U")) (some (codes "^{U}")) 0
    ∷ ent (codes "Ugrave") 217 (some (codes "`U")) (some (codes "`{U}")) 0
    ∷ ent (codes "Upsilon") 933 (some (codes "*U")) (some (codes "Upsilon")) 1
    ∷ ent (codes "Uuml") 220 (some (codes ":U")) (some (codes "\"{U}")) 0
    ∷ ent (codes "Xi") 926 (some (codes "*C")) (some (codes "Xi")) 1
    ∷ ent (codes "Yacute") 221 (some (codes "'Y")) (some (codes "'{Y}")) 0
    ∷ ent (codes "Yuml") 376 (some (codes ":Y")) (some (codes "\"{Y}")) 0
    ∷ ent (codes "Zeta") 918 (some (codes "*Z")) (some (codes "Z")) 2
    ∷ ent (codes "aacute") 225 (some (codes "'a")) (some (codes "'{a}")) 0
    ∷ ent (codes "acirc") 226 (some (codes "^a")) (some (codes "^{a}")) 0
    ∷ ent (codes "acute") 180 (some (codes "'")) (some (codes "'{}")) 0
    ∷ ent (codes "aelig") 230 (some (codes "ae")) (some (codes "ae{}")) 0
    ∷ ent (codes "agrave") 224 (some (codes "`a")) (some (codes "`{a}")) 0
    ∷ ent (codes "alefsym") 8501 (some (codes "Ah")) (some (codes "aleph")) 1
    ∷ ent (codes "alpha") 945 (some (codes "*a")) (some (codes "alpha")) 1
    ∷ ent (codes "amp") 38 none (some (codes "&{}")) 0
    ∷ ent (codes "and") 8743 (some (codes "AN")) (some (codes "wedge")) 1
    ∷ ent (codes "ang") 8736 (some (codes "/_")) (some (codes "angle")) 1
    ∷ ent (codes "aring") 229 (some (codes "oa")) (some (codes "aa{}")) 0
    ∷ ent (codes "asymp") 8776 (some (codes "|=")) (some (codes "asymp")) 1
    ∷ ent (codes "atilde") 227 (some (codes "~a")) (some (codes "~{a}")) 0
    ∷ ent (codes "auml") 228 (some (codes ":a")) (some (codes "\"{a}")) 0
    ∷ ent (codes "bdquo") 8222 none none 0
    ∷ ent (codes "beta") 946 (some (codes "*b")) (some (codes "beta")) 1
    ∷ ent (codes "brvbar") 166 none (some (codes "textbrokenbar{}")) 0
    ∷ ent (codes "bull") 8226 (some (codes "bu")) (some (codes "textbullet{}")) 0
    ∷ ent (codes "cap") 8745 (some (codes "ca")) (some (codes "cap")) 1
    ∷ ent (codes "ccedil") 231 (some (codes ",c")) (some (codes "c{c}")) 0
    ∷ ent (codes "cedil") 184 (some (codes "ac")) (some (codes "c{}")) 0
    ∷ ent (codes "cent") 162 (some (codes "ct")) (some (codes "textcent{}")) 0
    ∷ ent (codes "chi") 967 (some (codes "*x")) (some (codes "chi")) 1
    ∷ ent (codes "circ") 710 (some (codes "a^")) (some (codes "^{}")) 0
    ∷ ent (codes "cong") 8773 (some (codes "=~")) (some (codes "cong")) 1
    ∷ ent (codes "copy") 169 (some (codes "co")) (some (codes "copyright{}")) 0
    ∷ ent (codes "crarr") 8629 none none 0
    ∷ ent (codes "cup") 8746 (some (codes "cu")) (some (codes "cup")) 1
    ∷ ent (codes "curren") 164 none (some (codes "textcurrency{}")) 0
    ∷ ent (codes "dArr") 8659 none (some (codes "Downarrow")) 1
    ∷ ent (codes "dagger") 8224 (some (codes "dg")) (some (codes "dag{}")) 0
    ∷ ent (codes "darr") 8595 (some (codes "da")) (some (codes "downarrow")) 1
    ∷ ent (codes "deg") 176 (some (codes "de")) (some (codes "textdegree{}")) 0
    ∷ ent (codes "delta") 948 (some (codes "*d")) (some (codes "delta")) 1
    ∷ ent (codes "divide") 247 (some (codes "tdi")) (some (codes "div")) 1
    ∷ ent (codes "eacute") 233 (some (codes "'e")) (some (codes "'{e}")) 0
    ∷ ent (codes "ecirc") 234 (some (codes "^e")) (some (codes "^{e}")) 0
    ∷ ent (codes "egrave") 232 (some (codes "`e")) (some (codes "`{e}")) 0
    ∷ ent (codes "empty") 8709 (some (codes "es")) (some (codes "emptyset")) 1
    ∷ ent (codes "emsp") 8195 none (some (codes "hspace{1em}")) 0
    ∷ ent (codes "ensp") 8194 none (some (codes "hspace{0.5em}")) 0
    ∷ ent (codes "epsilon") 949 (some (codes "*e")) (some (codes "epsilon")) 1
    ∷ ent (codes "equiv") 8801 (some (codes "==")) (some (codes "equiv")) 1
    ∷ ent (codes "eta") 951 (some (codes "*y")) (some (codes "eta")) 1
    ∷ ent (codes "eth") 240 (some (codes "Sd")) (some (codes "dh{}")) 0
    ∷ ent (codes "euml") 235 (some (codes ":e")) (some (codes "\"{e}")) 0
    ∷ ent (codes "euro") 8364 (some (codes "Eu")) (some (codes "texteuro{}")) 0
    ∷ ent (codes "exist") 8707 (some (codes "te")) (some (codes "exists")) 1
    ∷ ent (codes "fnof") 402 none (some (codes "f")) 1
    ∷ ent (codes "forall") 8704 none (some (codes "forall")) 1
    ∷ ent (codes "frac12") 189 (some (codes "12")) (some (codes "sfrac{1}{2}")) 1
    ∷ ent (codes "frac14") 188 (some (codes "14")) (some (codes "sfrac{1}{4}")) 1
    ∷ ent (codes "frac34") 190 (some (codes "34")) (some (codes "sfrac{3}{4}")) 1
    ∷ ent (codes "frasl") 8260 none none 0
    ∷ ent (codes "gamma") 947 (some (codes "*g")) (some (codes "gamma")) 1
    ∷ ent (codes "ge") 8805 (some (codes ">=")) (some (codes "geq")) 1
    ∷ ent (codes "gt") 62 none (some (codes "textgreater{}")) 0
    ∷ ent (codes "hArr") 8660 none (some (codes "Leftrightarrow")) 1
    ∷ ent (codes "harr") 8596 (some (codes "<>")) (some (codes "leftrightarrow")) 1
    ∷ ent (codes "hellip") 8230 none (some (codes "ldots{}")) 0
    ∷ ent (codes "iacute") 237 (some (codes "'i")) (some (codes "'{i}")) 0
    ∷ ent (codes "icirc") 238 (some (codes "^i")) (some (codes "^{i}")) 0
    ∷ ent (codes "iexcl") 161 (some (codes "r!")) (some (codes "textexclamdown{}")) 0
    ∷ ent (codes "igrave") 236 (some (codes "`i")) (some (codes "`{i}")) 0
    ∷ ent (codes "image") 8465 none (some (codes "Im")) 1
    ∷ ent (codes "infin") 8734 (some (codes "if")) (some (codes "infty")) 1
    ∷ ent (codes "int") 8747 (some (codes "integral")) (some (codes "int")) 1
    ∷ ent (codes "iota") 953 (some (codes "*i")) (some (codes "iota")) 1
    ∷ ent (codes "iquest") 191 (some (codes "r?")) (some (codes "textquestiondown{}")) 0
    ∷ ent (codes "isin") 8712 none (some (codes "in")) 1
    ∷ ent (codes "iuml") 239 (some (codes ":i")) (some (codes "\"{i}")) 0
    ∷ ent (codes "kappa") 954 (some (codes "*k")) (some (codes "kappa")) 1
    ∷ []
