-- ===== src/Ctypes/Classes.antt =====
-- How the classes of characters divide the printable characters, and how the case functions
-- act on them.
use oronyx.Base.{◌≡◌, refl, arith, false, ◌&&◌, ◌||◌}
use oronyx.Ctypes.{ℤ, pos, negsuc, in_range, equals, isalpha, isdigit, isalnum, ispunct, isprint}
use oronyx.Ctypes.{isupper, islower, isspace, shift_case, toupper, tolower}

-- The printable characters are the letters and digits, the punctuation characters and the space,
-- and no character is in two of these classes.
pub isprint_classes :
    (c : ℤ)
    → (isprint c ≡ (isalnum c || ispunct c || equals c 32))
      × (isalnum c && ispunct c ≡ false)
      × (isalpha c && isdigit c ≡ false)
      × (isspace c && (isalnum c || ispunct c) ≡ false)
unfolding isprint isalnum ispunct equals isalpha isdigit isspace in_range
isprint_classes (pos n) = (ground arith, ground arith, ground arith, ground arith)
isprint_classes (negsuc n) = (refl, refl, refl, refl)

-- `toupper` leaves no lower case letter and `tolower` no upper case letter; both keep letters
-- letters and leave every other number as it is, and each undoes the other on the letters of its case.
toupper-tolower :
    (c : ℤ)
    → (islower (toupper c) ≡ false)
      × (isupper (tolower c) ≡ false)
      × (isalpha (toupper c) ≡ isalpha c)
      × (isalpha (tolower c) ≡ isalpha c)
      × (tolower (toupper c) ≡ tolower c)
      × (toupper (tolower c) ≡ toupper c)
      × (isalpha c ≡ false → toupper c ≡ c)
unfolding toupper tolower islower isupper isalpha shift_case in_range
toupper-tolower (pos n) = (
  ground arith,
  ground arith,
  ground arith,
  ground arith,
  ground arith,
  ground arith,
  λ h. ground arith,
)
toupper-tolower (negsuc n) = (refl, refl, refl, refl, refl, refl, λ h. refl)
