-- ===== src/Logger/Colors.antt =====
-- internal/logger/main.go: the coloured lines say what the plain ones say.
use mathlib.Core.Path.{subst}
use mmar.Constants.{red, green, yellow, blue, reset}
use mmar.Logger.{
  color_log_str, escape_string, escaped, LoggedRequest, int_text, colored_status, colored_method,
  query_mark, subdomain_info, http_line, log_http,
}
use mmar.Prelude.Decimal.{ℤ, pos, negsuc, digits, itoa}
use mmar.Prelude.Text.{Lacks, split-Lacks, split, join, to_lower}
use mmar.Utils.{extract_subdomain}
use mmar.Prelude.{
  ℕ, zero, suc, ◌+◌, ◌/◌, ◌%◌, ◌≡◌, ◌≢◌, refl, Bool, true, false, Bytes, codes, take, ap, sym, ◌∙◌,
  append-nil, List, [], ◌∷◌, ◌++◌, append_assoc, arith, eqn, ltb, nat_eq, bytes_eq, All, inl, inr,
  Bool-cases, if◌then◌else◌,
}

abbrev esc : ℕ
esc = 27

-- A text without its control sequences: what stands from an escape to the next `m` is left out. The
-- test says whether the text starts inside one.
pub strip : Bool → Bytes → Bytes
strip inside [] = []
strip true (c ∷ s) = strip (if eqn c b'm' then false else true) s
strip false (c ∷ s) =
    let inside = strip true s in
    let outside = strip false s in if eqn c esc then inside else c ∷ outside

-- A text in which nothing is left out, whatever follows.
record Shown (p plain : Bytes) : Type 0 where
  shown : (q : Bytes) → strip false (p ++ q) ≡ plain ++ strip false q

plain-Shown : (p : Bytes) → Lacks esc p → Shown p p
unfolding strip
plain-Shown [] h = record { shown = λ q. refl }
plain-Shown (c ∷ p) h =
    let rest = plain-Shown p h.1 in record { shown = λ q. ground (arith, h.0, rest.shown q) }

append-Shown : (a b p r : Bytes) → Shown a p → Shown b r → Shown (a ++ b) (p ++ r)
append-Shown a b p r f g = record {
  shown = λ q.
      rw (append_assoc a b q, append_assoc p r (strip false q), f.shown (b ++ q), g.shown q) refl;
}

digits-Lacks : (f n : ℕ) (out : Bytes) → Lacks esc out → Lacks esc (digits f n out)
unfolding digits
digits-Lacks zero n out h = h
digits-Lacks (suc f) n out h = elim (Bool-cases (ltb n 10)) [
  | inl small ↦ rw small ((λ e. omega (arith, e)), h)
  | inr large ↦
      rw large (digits-Lacks f (n / 10) ((b'0' + n % 10) ∷ out) ((λ e. omega (arith, e)), h))
]

itoa-Lacks : (n : ℕ) → Lacks esc (itoa n)
unfolding itoa
itoa-Lacks n = digits-Lacks (suc n) n [] tt

reset-Shown : Shown reset []
unfolding strip
reset-Shown = record { shown = λ q. refl }

-- A text between a colour and the reset.
colored-Shown : (color s : Bytes) → Shown color [] → Lacks esc s → Shown (color_log_str color s) s
unfolding color_log_str strip
colored-Shown color s f h = subst (Shown (color_log_str color s)) (append-nil s) (
    append-Shown (color ++ s) reset s [] (append-Shown color s [] s f (plain-Shown s h))
      reset-Shown)

red-Shown : Shown red []
unfolding strip
red-Shown = record { shown = λ q. refl }

green-Shown : Shown green []
unfolding strip
green-Shown = record { shown = λ q. refl }

yellow-Shown : Shown yellow []
unfolding strip
yellow-Shown = record { shown = λ q. refl }

blue-Shown : Shown blue []
unfolding strip
blue-Shown = record { shown = λ q. refl }

if_Shown :
    {p p' plain : Bytes} (b : Bool)
    → Shown p plain
    → Shown p' plain
    → Shown (if b then p else p') plain
if_Shown true f g = f
if_Shown false f g = g

colored_status-Shown : (n : ℕ) → Shown (colored_status n) (itoa n)
unfolding colored_status
colored_status-Shown n =
    let plain = itoa-Lacks n in
    if_Shown _ (colored-Shown green _ green-Shown plain) (
      if_Shown _ (colored-Shown yellow _ yellow-Shown plain) (
        if_Shown _ (colored-Shown red _ red-Shown plain)
          (if_Shown _ (colored-Shown red _ red-Shown plain) (plain-Shown (itoa n) plain))))

colored_method-Shown : (m : Bytes) → Lacks esc m → Shown (colored_method m) m
unfolding colored_method
colored_method-Shown m h = if_Shown _ (colored-Shown yellow m yellow-Shown h) (
    if_Shown _ (colored-Shown blue m blue-Shown h)
      (if_Shown _ (colored-Shown red m red-Shown h) (plain-Shown m h)))

append-Lacks : (a b : Bytes) → Lacks esc a → Lacks esc b → Lacks esc (a ++ b)
append-Lacks [] b f g = g
append-Lacks (c ∷ a) b f g = (f.0, append-Lacks a b f.1 g)

escaped-Lacks : (c : ℕ) → c ≢ esc → Lacks esc (escaped c)
unfolding escaped
escaped-Lacks c h = ground (arith, h)

escape_string-Lacks : (s : Bytes) → Lacks esc s → Lacks esc (escape_string s)
unfolding escape_string
escape_string-Lacks [] h = tt
escape_string-Lacks (c ∷ s) h =
    append-Lacks (escaped c) (escape_string s) (escaped-Lacks c h.0) (escape_string-Lacks s h.1)

to_lower-Lacks : (s : Bytes) → Lacks esc s → Lacks esc (to_lower s)
unfolding to_lower
to_lower-Lacks [] h = tt
to_lower-Lacks (c ∷ s) h = (ground (arith, h.0), to_lower-Lacks s h.1)

first-Lacks : (parts : List Bytes) → All (Lacks esc) parts → Lacks esc (join b'.' (take 1 parts))
unfolding join
first-Lacks [] h = tt
first-Lacks (p ∷ parts) h = h.0

extract_subdomain-Lacks : (host : Bytes) → Lacks esc host → Lacks esc (extract_subdomain host)
unfolding extract_subdomain
extract_subdomain-Lacks host h =
    to_lower-Lacks _ (first-Lacks (split b'.' host) (split-Lacks esc b'.' host h))

subdomain_info-Lacks :
    (b : Bool) (host : Bytes) → Lacks esc host → Lacks esc (subdomain_info b host)
unfolding subdomain_info
subdomain_info-Lacks false host h = tt
subdomain_info-Lacks true host h = (
  λ e. omega (arith, e),
  append-Lacks (extract_subdomain host) (codes "] ") (extract_subdomain-Lacks host h)
      (ground arith),
)

int_text-Lacks : (n : ℤ) → Lacks esc (int_text n)
unfolding int_text
int_text-Lacks (pos n) = itoa-Lacks n
int_text-Lacks (negsuc n) = ((λ e. omega (arith, e)), itoa-Lacks (suc n))

query_mark-Lacks : (query : Bytes) → Lacks esc (query_mark query)
unfolding query_mark
query_mark-Lacks [] = tt
query_mark-Lacks (c ∷ query) = ((λ e. omega (arith, e)), tt)

-- What a client chose in its request.
pub record IsPlain (req : LoggedRequest) : Type 0 where
  pub method : Lacks esc req.method
  pub host : Lacks esc req.host
  pub path : Lacks esc req.path
  pub raw_query : Lacks esc req.raw_query
  pub proto : Lacks esc req.proto

keep : (p : Bytes) {r r' : Bytes} → Lacks esc p → Shown r r' → Shown (p ++ r) (p ++ r')
keep p {r} {r'} h f = append-Shown p r p r' (plain-Shown p h) f

then_plain : {r r' : Bytes} (p : Bytes) → Lacks esc p → Shown r r' → Shown (r ++ p) (r' ++ p)
then_plain {r} {r'} p h f = append-Shown r p r' p f (plain-Shown p h)

http_line-Shown :
    (req : LoggedRequest) (n : ℤ) (b : Bool) (m m' s s' : Bytes)
    → IsPlain req
    → Shown m m'
    → Shown s s'
    → Shown (http_line req n b m s) (http_line req n b m' s')
unfolding http_line
http_line-Shown req n b m m' s s' h f g =
    then_plain (b' ' ∷ int_text n) ((λ e. omega (arith, e)), int_text-Lacks n)
      (append-Shown _ _ _ _
        (then_plain (b' ' ∷ req.proto) ((λ e. omega (arith, e)), h.proto)
          (then_plain req.raw_query h.raw_query (
            then_plain (query_mark req.raw_query) (query_mark-Lacks req.raw_query) (
              then_plain (b' ' ∷ escape_string req.path)
                ((λ e. omega (arith, e)), escape_string-Lacks req.path h.path)
                (keep (subdomain_info b req.host) (subdomain_info-Lacks b req.host h.host)
                  (keep (codes "\"") (ground arith) f))))))
        (keep (codes "\" ") (ground arith) g))

-- For a request whose parts have no escape character: the coloured line without its control
-- sequences is the plain line.
pub strip-log_http :
    (req : LoggedRequest) (status_code : ℕ) (n : ℤ) (b : Bool)
    → IsPlain req
    → strip false (log_http req status_code n b true) ≡ log_http req status_code n b false
unfolding log_http strip
strip-log_http req status_code n b h =
    ap (strip false) (sym (append-nil (log_http req status_code n b true)))
    ∙ line.shown []
    ∙ append-nil (log_http req status_code n b false)
  where
    line : Shown (log_http req status_code n b true) (log_http req status_code n b false)
    line =
        http_line-Shown req n b _ req.method _ (itoa status_code) h
          (colored_method-Shown req.method h.method) (colored_status-Shown status_code)
