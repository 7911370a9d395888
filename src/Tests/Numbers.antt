-- ===== src/Tests/Numbers.antt =====
-- The number formats, the calculator and the configuration on concrete inputs.
use realstate_allan.Calculator.Accepts.{HasAmount, HasRate, HasSplit, calculate-Accepts}
use realstate_allan.Common.Int.{pos}
use realstate_allan.Format.Grouping.{
  without_commas, group_loop_ends, sign_prefix, format_indian_number-Reads,
}
use realstate_allan.Calculator.Split.{IsSplit, parse_split_ratio-IsSplit}
use realstate_allan.Float.{one_units, of_nat, zero_float, fin, lt}
use realstate_allan.Calculator.{
  parse_split_ratio, CalculatorInput, CalculatorResult, calculate, good, commission, round2,
}
use realstate_allan.Format.{group_loop, format_indian_number}
use realstate_allan.Float.Convert.{rounded}
use realstate_allan.Common.{
  ℕ, ◌*◌, codes, ◌^◌, ◌≡◌, [], refl, ◌↔◌, false, arith, ◌++◌, show_nat, digits_value, some, true,
}

abbrev fifteen_hundred : ℕ
fifteen_hundred = 1_500 * 2 ^ 1_074

format_indian_number-Reads_example :
    (without_commas (format_indian_number (fin false fifteen_hundred))
      ≡ sign_prefix false fifteen_hundred ++ show_nat (rounded fifteen_hundred))
    × (digits_value 0 (show_nat (rounded fifteen_hundred)) ≡ some (rounded fifteen_hundred))
unfolding rounded one_units
format_indian_number-Reads_example = format_indian_number-Reads false fifteen_hundred refl

group_loop_ends_example :
    ((group_loop 7 (codes "12345", codes "678")).0 ≡ [])
    × (without_commas (group_loop 7 (codes "12345", codes "678")).1
        ≡ without_commas (codes "12345678"))
group_loop_ends_example = group_loop_ends 7 (codes "12345") (codes "678") (omega arith)

parse_split_ratio-IsSplit_example : IsSplit (pos 60, pos 40)
unfolding parse_split_ratio realstate_allan.Calculator.cut realstate_allan.Common.atoi
    realstate_allan.Common.trim_space
parse_split_ratio-IsSplit_example = parse_split_ratio-IsSplit " 60:40" (pos 60, pos 40) refl

abbrev sale : CalculatorInput
sale = record {
  mode = "SALE";
  property_value = of_nat 5_000_000;
  monthly_rent = zero_float;
  commission_rate = of_nat 2;
  split_ratio = "60:40";
}

calculate-Accepts_example :
    ((r : CalculatorResult) × (calculate sale ≡ good r))
    ↔ (HasAmount sale × HasRate sale × HasSplit sale)
calculate-Accepts_example = calculate-Accepts sale

-- A value that int64 does not hold in hundredths.
overflow_test : lt (round2 (of_nat (10 ^ 17))) zero_float ≡ true
unfolding lt round2 realstate_allan.Float.div realstate_allan.Float.Convert.of_int
    realstate_allan.Float.Convert.to_int64 realstate_allan.Float.Convert.add_float
    realstate_allan.Float.mul realstate_allan.Float.Convert.neg
overflow_test = refl

-- 10 crore at 2 percent, by hand.
commission_test :
    (commission (record sale { property_value = of_nat 100_000_000 })) ≡ of_nat 2_000_000
unfolding of_nat commission realstate_allan.Float.mul realstate_allan.Float.div
commission_test = refl
