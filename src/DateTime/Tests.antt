-- ===== src/DateTime/Tests.antt =====
-- A leap day
use clean_os.Base.{◌+◌, ◌≡◌, some, arith}
use clean_os.DateTime.{DateTime, mktime64, mkdatetime}
use clean_os.DateTime.RoundTrip.{mktime64-mkdatetime}

-- 29 February 2024, 12:30:15
mktime64-mkdatetime_example :
    (t : DateTime) × (mkdatetime 1709209815 ≡ some t)
    × (mktime64 t.year (t.month + 1) t.day t.hour t.minute t.second ≡ 1709209815)
mktime64-mkdatetime_example = mktime64-mkdatetime 1709209815 (omega arith)
