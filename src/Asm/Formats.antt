-- ===== src/Asm/Formats.antt =====
-- power64asm/tables.go: the decoding rules, in the order in which they are tried.
mod Part00
mod Part01
mod Part02
mod Part03
mod Part04
mod Part05
mod Part06
mod Part07
mod Part08
mod Part09
mod Part10
mod Part11
mod Part12
mod Part13
mod Part14
mod Part15
mod Part16
mod Part17
use mathlib.Core.List.{List, ◌++◌}
use power.Asm.InstFormat.{InstFormat}
use Part00.{formats00}
use Part01.{formats01}
use Part02.{formats02}
use Part03.{formats03}
use Part04.{formats04}
use Part05.{formats05}
use Part06.{formats06}
use Part07.{formats07}
use Part08.{formats08}
use Part09.{formats09}
use Part10.{formats10}
use Part11.{formats11}
use Part12.{formats12}
use Part13.{formats13}
use Part14.{formats14}
use Part15.{formats15}
use Part16.{formats16}
use Part17.{formats17}

unfoldable pub inst_formats : List InstFormat
unfolding formats00 formats01 formats02 formats03 formats04 formats05 formats06 formats07 formats08
    formats09 formats10 formats11 formats12 formats13 formats14 formats15 formats16 formats17
inst_formats =
    formats00
    ++ (formats01
        ++ (formats02
            ++ (formats03
                ++ (formats04
                    ++ (formats05
                        ++ (formats06
                            ++ (formats07
                                ++ (formats08
                                    ++ (formats09
                                        ++ (formats10
                                            ++ (formats11
                                                ++ (formats12
                                                    ++ (formats13
                                                        ++ (formats14
                                                            ++ (formats15
                                                            ++ (formats16
                                                            ++ formats17))))))))))))))))
