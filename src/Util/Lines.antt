-- ===== src/Util/Lines.antt =====
-- util/urlreader.go, LineReader: a callback on each line of a file or URL.
use dinosaur_dns.Common.{ℕ, ◌+◌, List, [], ◌∷◌, Option, none, some, Str}

-- The callback mutates a state `S` (the list that it fills) and may return an error. The lines are
-- those that the scanner yields, and `scan_error` is what `scanner.Err()` says behind the last.
unfoldable pub line_reader :
    {S E : Type 0} → (Str → S → S × Option E) → Option E → List Str → S → S × ℕ × Option E
line_reader f scan_error [] s = (s, 0, scan_error)
line_reader f scan_error (line ∷ lines) s =
    let (s', e) = f line s in
    let (t, count, e') = line_reader f scan_error lines s' in
    elim e [ none ↦ (t, count + 1, e') | some x ↦ (s', 0, some x) ]
