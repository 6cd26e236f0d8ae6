-- ===== src/Tests/Marks.antt =====
-- Printers for the tests, and readers that read back what they print.
use Prim.Native.String.{String as Text, ◌∷◌ as then_char, [] as no_text}
use caddy_blockchain_health.Common.{ℕ, zero, suc, ◌≡◌, refl, Bool, true, false, ap}
use caddy_blockchain_health.Common.Int.{ℤ, pos, negsuc}
use caddy_blockchain_health.Types.Protocol.{ok}
use caddy_blockchain_health.Caddyfile.{Readers}
use caddy_blockchain_health.Directives.Print.{Printers, ReadsBack}

-- An integer as a text of marks, an even number of them if it is not negative.
abbrev marks : ℕ → Text
marks zero = no_text
marks (suc n) = then_char "1" (then_char "1" (marks n))

abbrev pub show : ℤ → Text
show (pos n) = marks n
show (negsuc n) = then_char "1" (marks n)

abbrev further : ℤ → ℤ
further (pos n) = pos (suc n)
further (negsuc n) = negsuc (suc n)

abbrev read : Text → ℤ
read no_text = pos 0
read (then_char c no_text) = negsuc 0
read (then_char c (then_char e rest)) = further (read rest)

read-marks : (n : ℕ) → read (marks n) ≡ pos n
read-marks zero = refl
read-marks (suc n) = ap further (read-marks n)

read-marks_odd : (n : ℕ) → read (then_char "1" (marks n)) ≡ negsuc n
read-marks_odd zero = refl
read-marks_odd (suc n) = ap further (read-marks_odd n)

read-show : (z : ℤ) → read (show z) ≡ z
read-show (pos n) = read-marks n
read-show (negsuc n) = read-marks_odd n

abbrev pub printers : Printers
printers = record { int = show; float = show; bool = show_bool }
  where
    show_bool : Bool → Text
    show_bool true = then_char "1" no_text
    show_bool false = no_text

abbrev read_bool : Text → Bool
read_bool no_text = false
read_bool (then_char c rest) = true

abbrev pub readers : Readers
readers = record {
  atoi = λ t. ok (read t);
  parse_float = λ t. ok (read t);
  parse_bool = λ t. ok (read_bool t);
  parse_duration = λ t. ok (read t);
}

pub printers-ReadsBack : ReadsBack readers printers
printers-ReadsBack = record {
  int = λ n h. ap ok (read-show n);
  float = λ n h. ap ok (read-show n);
  bool = flags;
}
  where
    flags : (b : Bool) → readers.parse_bool (printers.bool b) ≡ ok b
    flags true = refl
    flags false = refl
