-- ===== src/Ctypes/Tests.antt =====
-- The theorems on characters at concrete characters.
use oronyx.Base.{◌≡◌, refl, false, ◌&&◌, ◌||◌}
use oronyx.Ctypes.{
  in_range, pos, negsuc, equals, isalpha, isdigit, isalnum, ispunct, isprint, isspace,
}
use oronyx.Ctypes.Classes.{isprint_classes}

isprint_classes_example :
    (isprint (pos b'7') ≡ (isalnum (pos b'7') || ispunct (pos b'7') || equals (pos b'7') 32))
    × (isalnum (pos b'7') && ispunct (pos b'7') ≡ false)
    × (isalpha (pos b'7') && isdigit (pos b'7') ≡ false)
    × (isspace (pos b'7') && (isalnum (pos b'7') || ispunct (pos b'7')) ≡ false)
isprint_classes_example = isprint_classes (pos b'7')

-- A negative number, such as EOF, is in no class.
isprint_negative : (isprint (negsuc 0) ≡ false) × (isspace (negsuc 0) ≡ false)
unfolding isprint isspace in_range equals
isprint_negative = (refl, refl)
