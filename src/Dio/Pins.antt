-- ===== src/Dio/Pins.antt =====
-- The pin table: `getInputPinNum` and `getOutputPinNum` of dio.cpp, with the constants of gpio.h.
use my_linux_pbs.Base.{ℕ, ◌≡◌, arith, ◌==◌, if◌then◌else◌}

-- The pins of the inputs 1 to 12; every other number has the pin 0.
unfoldable pub input_pin_num : ℕ → ℕ
input_pin_num n =
    if n == 1
    then 373
    else if n == 2
    then 376
    else if n == 3
    then 377
    else if n == 4
    then 357
    else if n == 5
    then 358
    else if n == 6
    then 372
    else if n == 7
    then 343
    else if n == 8
    then 344
    else if n == 9
    then 345
    else if n == 10
    then 340
    else if n == 11
    then 341
    else if n == 12
    then 342
    else 0

-- The pins of the outputs 1 to 9; every other number has the pin 0.
unfoldable pub output_pin_num : ℕ → ℕ
output_pin_num n =
    if n == 1
    then 413
    else if n == 2
    then 412
    else if n == 3
    then 378
    else if n == 4
    then 367
    else if n == 5
    then 366
    else if n == 6
    then 365
    else if n == 7
    then 415
    else if n == 8
    then 416
    else if n == 9
    then 417
    else 0

-- The number that a pin of the input table belongs to, and 0 for any other pin.
pub input_of_pin : ℕ → ℕ
input_of_pin p =
    if p == 373
    then 1
    else if p == 376
    then 2
    else if p == 377
    then 3
    else if p == 357
    then 4
    else if p == 358
    then 5
    else if p == 372
    then 6
    else if p == 343
    then 7
    else if p == 344
    then 8
    else if p == 345
    then 9
    else if p == 340
    then 10
    else if p == 341
    then 11
    else if p == 342
    then 12
    else 0

pub output_of_pin : ℕ → ℕ
output_of_pin p =
    if p == 413
    then 1
    else if p == 412
    then 2
    else if p == 378
    then 3
    else if p == 367
    then 4
    else if p == 366
    then 5
    else if p == 365
    then 6
    else if p == 415
    then 7
    else if p == 416
    then 8
    else if p == 417
    then 9
    else 0

-- Every input number that has a pin is found again from it: no two inputs share a pin.
pub input_of_pin-input_pin_num :
    (n : ℕ) → input_of_pin (input_pin_num n) ≡ (if input_pin_num n == 0 then 0 else n)
unfolding input_of_pin input_pin_num
input_of_pin-input_pin_num n = ground arith

-- Every output number that has a pin is found again from it: no two outputs share a pin.
pub output_of_pin-output_pin_num :
    (n : ℕ) → output_of_pin (output_pin_num n) ≡ (if output_pin_num n == 0 then 0 else n)
unfolding output_of_pin output_pin_num
output_of_pin-output_pin_num n = ground arith
