-- ===== src/Keccak.antt =====
-- The permutation of crypto/src/riscv_fourq_verify.c: Keccak-p[1600] with 12 rounds, in the
-- optimised form of the macros, where each round also prepares the column parities of the next.
-- The 200 bytes of a state are its 25 lanes, which the C code reads and writes as `uint64_t`
-- (little-endian): here a state is the list of its lanes.
pub mod Constants
pub mod Reference
pub mod Rounds
use Constants.{
  round_constant_0, round_constant_1, round_constant_2, round_constant_3, round_constant_4,
  round_constant_5, round_constant_6, round_constant_7, round_constant_8, round_constant_9,
  round_constant_10,
}
use zkproof_demo.Base.{ℕ, bit_xor, get_or, List, [], ◌∷◌}
use zkproof_demo.Word.{rol64, andn64}

-- The local variables `A##ba` ... `A##su` of the macros.
pub record Lanes : Type 0 where
  pub ba : ℕ
  pub be : ℕ
  pub bi : ℕ
  pub bo : ℕ
  pub bu : ℕ
  pub ga : ℕ
  pub ge : ℕ
  pub gi : ℕ
  pub go : ℕ
  pub gu : ℕ
  pub ka : ℕ
  pub ke : ℕ
  pub ki : ℕ
  pub ko : ℕ
  pub ku : ℕ
  pub ma : ℕ
  pub me : ℕ
  pub mi : ℕ
  pub mo : ℕ
  pub mu : ℕ
  pub sa : ℕ
  pub se : ℕ
  pub si : ℕ
  pub so : ℕ
  pub su : ℕ

-- The local variables `Ca` ... `Cu`.
pub record Parity : Type 0 where
  pub ca : ℕ
  pub ce : ℕ
  pub ci : ℕ
  pub co : ℕ
  pub cu : ℕ

unfoldable pub copy_from_state : List ℕ → Lanes
copy_from_state s = record {
  ba = get_or s 0 0;
  be = get_or s 1 0;
  bi = get_or s 2 0;
  bo = get_or s 3 0;
  bu = get_or s 4 0;
  ga = get_or s 5 0;
  ge = get_or s 6 0;
  gi = get_or s 7 0;
  go = get_or s 8 0;
  gu = get_or s 9 0;
  ka = get_or s 10 0;
  ke = get_or s 11 0;
  ki = get_or s 12 0;
  ko = get_or s 13 0;
  ku = get_or s 14 0;
  ma = get_or s 15 0;
  me = get_or s 16 0;
  mi = get_or s 17 0;
  mo = get_or s 18 0;
  mu = get_or s 19 0;
  sa = get_or s 20 0;
  se = get_or s 21 0;
  si = get_or s 22 0;
  so = get_or s 23 0;
  su = get_or s 24 0;
}

unfoldable pub copy_to_state : Lanes → List ℕ
copy_to_state a =
    a.ba ∷ a.be ∷ a.bi ∷ a.bo ∷ a.bu ∷ a.ga ∷ a.ge ∷ a.gi ∷ a.go ∷ a.gu ∷ a.ka ∷ a.ke ∷ a.ki ∷ a.ko
    ∷ a.ku ∷ a.ma ∷ a.me ∷ a.mi ∷ a.mo ∷ a.mu ∷ a.sa ∷ a.se ∷ a.si ∷ a.so ∷ a.su ∷ []

-- The opening lines of `rounds12`.
unfoldable pub column_parity : Lanes → Parity
column_parity a = record {
  ca = bit_xor (bit_xor (bit_xor (bit_xor a.ba a.ga) a.ka) a.ma) a.sa;
  ce = bit_xor (bit_xor (bit_xor (bit_xor a.be a.ge) a.ke) a.me) a.se;
  ci = bit_xor (bit_xor (bit_xor (bit_xor a.bi a.gi) a.ki) a.mi) a.si;
  co = bit_xor (bit_xor (bit_xor (bit_xor a.bo a.go) a.ko) a.mo) a.so;
  cu = bit_xor (bit_xor (bit_xor (bit_xor a.bu a.gu) a.ku) a.mu) a.su;
}

-- `thetaRhoPiChiIotaPrepareTheta(i, A, E)` without the parities: the lanes `E` from the lanes `A`
-- and their column parities, with round constant `rc`. The last round of `rounds12`, which the
-- source writes out, is this too.
unfoldable pub theta_rho_pi_chi_iota : ℕ → Parity → Lanes → Lanes
theta_rho_pi_chi_iota rc p a =
    let d_a = bit_xor p.cu (rol64 p.ce 1) in
    let d_e = bit_xor p.ca (rol64 p.ci 1) in
    let d_i = bit_xor p.ce (rol64 p.co 1) in
    let d_o = bit_xor p.ci (rol64 p.cu 1) in
    let d_u = bit_xor p.co (rol64 p.ca 1) in
    let bba = bit_xor a.ba d_a in
    let bbe = rol64 (bit_xor a.ge d_e) 44 in
    let bbi = rol64 (bit_xor a.ki d_i) 43 in
    let bbo = rol64 (bit_xor a.mo d_o) 21 in
    let bbu = rol64 (bit_xor a.su d_u) 14 in
    let eba = bit_xor (bit_xor bba (andn64 bbe bbi)) rc in
    let ebe = bit_xor bbe (andn64 bbi bbo) in
    let ebi = bit_xor bbi (andn64 bbo bbu) in
    let ebo = bit_xor bbo (andn64 bbu bba) in
    let ebu = bit_xor bbu (andn64 bba bbe) in
    let bga = rol64 (bit_xor a.bo d_o) 28 in
    let bge = rol64 (bit_xor a.gu d_u) 20 in
    let bgi = rol64 (bit_xor a.ka d_a) 3 in
    let bgo = rol64 (bit_xor a.me d_e) 45 in
    let bgu = rol64 (bit_xor a.si d_i) 61 in
    let ega = bit_xor bga (andn64 bge bgi) in
    let ege = bit_xor bge (andn64 bgi bgo) in
    let egi = bit_xor bgi (andn64 bgo bgu) in
    let ego = bit_xor bgo (andn64 bgu bga) in
    let egu = bit_xor bgu (andn64 bga bge) in
    let bka = rol64 (bit_xor a.be d_e) 1 in
    let bke = rol64 (bit_xor a.gi d_i) 6 in
    let bki = rol64 (bit_xor a.ko d_o) 25 in
    let bko = rol64 (bit_xor a.mu d_u) 8 in
    let bku = rol64 (bit_xor a.sa d_a) 18 in
    let eka = bit_xor bka (andn64 bke bki) in
    let eke = bit_xor bke (andn64 bki bko) in
    let eki = bit_xor bki (andn64 bko bku) in
    let eko = bit_xor bko (andn64 bku bka) in
    let eku = bit_xor bku (andn64 bka bke) in
    let bma = rol64 (bit_xor a.bu d_u) 27 in
    let bme = rol64 (bit_xor a.ga d_a) 36 in
    let bmi = rol64 (bit_xor a.ke d_e) 10 in
    let bmo = rol64 (bit_xor a.mi d_i) 15 in
    let bmu = rol64 (bit_xor a.so d_o) 56 in
    let ema = bit_xor bma (andn64 bme bmi) in
    let eme = bit_xor bme (andn64 bmi bmo) in
    let emi = bit_xor bmi (andn64 bmo bmu) in
    let emo = bit_xor bmo (andn64 bmu bma) in
    let emu = bit_xor bmu (andn64 bma bme) in
    let bsa = rol64 (bit_xor a.bi d_i) 62 in
    let bse = rol64 (bit_xor a.go d_o) 55 in
    let bsi = rol64 (bit_xor a.ku d_u) 39 in
    let bso = rol64 (bit_xor a.ma d_a) 41 in
    let bsu = rol64 (bit_xor a.se d_e) 2 in
    let esa = bit_xor bsa (andn64 bse bsi) in
    let ese = bit_xor bse (andn64 bsi bso) in
    let esi = bit_xor bsi (andn64 bso bsu) in
    let eso = bit_xor bso (andn64 bsu bsa) in
    let esu = bit_xor bsu (andn64 bsa bse) in
    record {
      ba = eba;
      be = ebe;
      bi = ebi;
      bo = ebo;
      bu = ebu;
      ga = ega;
      ge = ege;
      gi = egi;
      go = ego;
      gu = egu;
      ka = eka;
      ke = eke;
      ki = eki;
      ko = eko;
      ku = eku;
      ma = ema;
      me = eme;
      mi = emi;
      mo = emo;
      mu = emu;
      sa = esa;
      se = ese;
      si = esi;
      so = eso;
      su = esu;
    }

-- The parities that the macro gathers (`Ca = E##ba`, `Ca ^= E##ga`, ...) are those of `E`.
unfoldable pub theta_rho_pi_chi_iota_prepare_theta : ℕ → Parity × Lanes → Parity × Lanes
theta_rho_pi_chi_iota_prepare_theta rc (p, a) =
    let e = theta_rho_pi_chi_iota rc p a in (column_parity e, e)

unfoldable pub rounds12 : Lanes → Lanes
rounds12 a =
    let s : Parity × Lanes = (column_parity a, a) in
    let s = theta_rho_pi_chi_iota_prepare_theta round_constant_0 s in
    let s = theta_rho_pi_chi_iota_prepare_theta round_constant_1 s in
    let s = theta_rho_pi_chi_iota_prepare_theta round_constant_2 s in
    let s = theta_rho_pi_chi_iota_prepare_theta round_constant_3 s in
    let s = theta_rho_pi_chi_iota_prepare_theta round_constant_4 s in
    let s = theta_rho_pi_chi_iota_prepare_theta round_constant_5 s in
    let s = theta_rho_pi_chi_iota_prepare_theta round_constant_6 s in
    let s = theta_rho_pi_chi_iota_prepare_theta round_constant_7 s in
    let s = theta_rho_pi_chi_iota_prepare_theta round_constant_8 s in
    let s = theta_rho_pi_chi_iota_prepare_theta round_constant_9 s in
    let s = theta_rho_pi_chi_iota_prepare_theta round_constant_10 s in
    theta_rho_pi_chi_iota 0x8000000080008008 s.0 s.1

-- `KeccakP1600_Permute_12rounds`
unfoldable pub permute_12rounds : List ℕ → List ℕ
permute_12rounds s = copy_to_state (rounds12 (copy_from_state s))
