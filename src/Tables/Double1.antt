-- ===== src/Tables/Double1.antt =====
-- The first 64 points of `DOUBLE_SCALAR_TABLE` in crypto/src/riscv_tables.c, 12 words a point.
use zkproof_demo.Base.{ℕ, List, [], ◌∷◌}

abbrev pub double_scalar_words_1 : List ℕ
double_scalar_words_1 =
    0xe18a34f3a703e631 ∷ 0x287460bf1d502b5f ∷ 0xe02e62f7e4f90353 ∷ 0x0c3ba0378b86acde
    ∷ 0x90bf0f98b0937edc ∷ 0x740b7c7824f0c555 ∷ 0xb321239123a01366 ∷ 0x4ffcf5b93a9557a5
    ∷ 0x297afccbabda42bb ∷ 0x5948d137556c97c6 ∷ 0xa8189a393330684c ∷ 0x0caf2b720a341f27
    ∷ 0x892756b15bcf68c4 ∷ 0x5742f77c98a526ba ∷ 0x340a5a1de9f89f9b ∷ 0x14ef680aee75d0f7
    ∷ 0x84e770e14043a41f ∷ 0x0212c41116c33c95 ∷ 0x35b791e6de4dc0e2 ∷ 0x5949df08518d5d28
    ∷ 0x6a0e120744ed10db ∷ 0x5a5183ce844391d3 ∷ 0x6f618b158afdba50 ∷ 0x2ce2037e470e2088
    ∷ 0x1f49fa149a64ba3c ∷ 0x5f9876d519670451 ∷ 0x030105056f55586b ∷ 0x020f1a557d8fd726
    ∷ 0xdf4cb175b06d86c8 ∷ 0x694fbcbe7fe58390 ∷ 0x7933294a756a1b67 ∷ 0x09dbe9924b58f8ec
    ∷ 0x590f4403cdf197b6 ∷ 0x1c07969fc87a0ba7 ∷ 0xc496477712252367 ∷ 0x5508976022f1b096
    ∷ 0xefda361e452e1775 ∷ 0x7a0a0cccacc838fb ∷ 0xb07e791c0be5dc5f ∷ 0x24d9b6b418cbcb93
    ∷ 0x497970f3c6117e03 ∷ 0x3986a158cb96d595 ∷ 0x8f80586ce692612b ∷ 0x305cafda7e4df9d6
    ∷ 0xc1a1c2e06452914a ∷ 0x7ef989c0eb583079 ∷ 0x3a765b1f7364b099 ∷ 0x4fee236d58299c6b
    ∷ 0x6f81095f770e8419 ∷ 0x53bbd86b7396bc09 ∷ 0x2b72ba726b2b4210 ∷ 0x625dda1d2901c78b
    ∷ 0x0ff5bc7b18cd2b3e ∷ 0x0556598c7358d332 ∷ 0x0991245f20ff50d7 ∷ 0x0e7f58e5e919a97e
    ∷ 0x5a0561373b758756 ∷ 0x6447bc93f87c198a ∷ 0xf9230604c34c7520 ∷ 0x6b214425475c1bfa
    ∷ 0xe93de62d6a7f9497 ∷ 0x2129459d86f4493c ∷ 0x456394c7c464cfe4 ∷ 0x612434fec3f4a1b3
    ∷ 0x1ed91eddf44261f3 ∷ 0x0c6d3854f9e0a3ff ∷ 0xd3fd153188a7e4e3 ∷ 0x24691fbdca16910c
    ∷ 0xbe97465cd7625c9d ∷ 0x2aa61cd373f759f4 ∷ 0x824d5763a326d62b ∷ 0x1a0ae39e50da20ba
    ∷ 0x32d0c8481ee4c3b9 ∷ 0x6c3687109cdd18c6 ∷ 0xe52717142fbf95da ∷ 0x67bfa41fb52ce9c6
    ∷ 0x4e24d6a088a01474 ∷ 0x49a6ca0ae3fb6626 ∷ 0xd67f8faa9103191e ∷ 0x674888f5aa6d3062
    ∷ 0x4ba73824c2e85a99 ∷ 0x406b2fd18d35b314 ∷ 0xa7087b1bea728ac1 ∷ 0x11d2f222317b160e
    ∷ 0xf8946e007e23a469 ∷ 0x22a196fabbce31a2 ∷ 0x5309ee1bdc1216ba ∷ 0x240fe9953827a324
    ∷ 0xf9fcb89b63aeb5c7 ∷ 0x603b8149ed16b1b0 ∷ 0xb1f1876c02cf61fb ∷ 0x4a5e32af612f948b
    ∷ 0xfc491aede69a8813 ∷ 0x1ad9379136e53aa5 ∷ 0x5da50db1d5e6c123 ∷ 0x2f4014f7fe2c12ca
    ∷ 0xe4f6791d7685c3f5 ∷ 0x4c218521c3745a9b ∷ 0x0c0521af98555f97 ∷ 0x1462a12953cada7b
    ∷ 0x0bb2ab63d6452c1b ∷ 0x5783c531ec98bb87 ∷ 0x737def53605dbc9c ∷ 0x49f982b930e86719
    ∷ 0x75b16790cb5211e3 ∷ 0x45ad6574cdbae99e ∷ 0x1062b72dfeec9851 ∷ 0x45029a09cc468c88
    ∷ 0x532240de77f3a1f2 ∷ 0x17bd291eaa9ad0ea ∷ 0xe0a2d7efc2f8a0a0 ∷ 0x3a7412052021778e
    ∷ 0xb0dfb0976acc90df ∷ 0x7fd603b689a7b1f3 ∷ 0x1152579ccb00d6c6 ∷ 0x6340743b631849a3
    ∷ 0xebaa47290e0cda01 ∷ 0x143265a6d53fef0b ∷ 0x45325d6fd981e75a ∷ 0x0e9780cc39586f2a
    ∷ 0xa4f68d207a8628dd ∷ 0x50d230b51893e841 ∷ 0xf3bd769a4bb504b6 ∷ 0x55975c063969292e
    ∷ 0x07727ba25fb8756f ∷ 0x07ff86cf8ed731fd ∷ 0xef57fa40cc35a1f0 ∷ 0x70753a70874218fc
    ∷ 0x615954e2342b973c ∷ 0x5aa9d68f1a59df86 ∷ 0x3b8e9e9ff5e44468 ∷ 0x2e749114d60a3d23
    ∷ 0x14a1b91ec176db4b ∷ 0x55f91a63d69aae6d ∷ 0xf42382327b1b6d27 ∷ 0x2acf1f475facaafd
    ∷ 0xfd9069b479b58968 ∷ 0x3baaf4e5c4a45f77 ∷ 0xa2ac9ab98a7aaab6 ∷ 0x5466cb5018f50981
    ∷ 0x3e6ba27771ba3205 ∷ 0x31ea90cdea1bbbe4 ∷ 0x0000416b5c557393 ∷ 0x464cb0415a510d7d
    ∷ 0xd02087d206ff2bbf ∷ 0x2b9c8ecd7fabe736 ∷ 0xb2b56d3842caab0d ∷ 0x046ea0b7767700a7
    ∷ 0x113a7a889e317310 ∷ 0x5992a354bef7d0ca ∷ 0x3edda94ed50388bd ∷ 0x052661f767839154
    ∷ 0x4c28edf6e19e28e0 ∷ 0x1d19c2f2d2f644e5 ∷ 0x5d732148db35ab3d ∷ 0x680c4714b83580f5
    ∷ 0xa374f282bb80ccec ∷ 0x789e609bc77ae11c ∷ 0x10d2577d599b45f2 ∷ 0x1c548b5b857721b1
    ∷ 0x7baea726b4543fdf ∷ 0x3c1562912d1b4ed2 ∷ 0xd6362203b7e82082 ∷ 0x1414e523d3c7a900
    ∷ 0x7ca349951c1d23a9 ∷ 0x4da4265e3ce80fb4 ∷ 0x7981ebbcaca9ef36 ∷ 0x4ebac9e5b5bf980b
    ∷ 0xabd2c1dcf49cb5a4 ∷ 0x3f54acfc25c6340f ∷ 0x202eeffabbd11cbd ∷ 0x67216b7cb3695e8c
    ∷ 0xff7cbcf9b23fc9f1 ∷ 0x2eebebdff7fa7afb ∷ 0x71156befa111f85e ∷ 0x1b8fd98df522902c
    ∷ 0x6b28ebad62519791 ∷ 0x6cf0ea960e01d8ed ∷ 0xb4617bc2006967d5 ∷ 0x323da065cb3df0ad
    ∷ 0x31687d0741e24d9c ∷ 0x02db8f2b509a7cc2 ∷ 0x9243f85924320527 ∷ 0x68c360f01d6e6d2b
    ∷ 0x2351c5e877d5306a ∷ 0x6f56ccfc85c5f3a9 ∷ 0x1b09652837c4928f ∷ 0x0b3337554c83f971
    ∷ 0xe2931be2ccc783ec ∷ 0x46829694ba08c64f ∷ 0x9f35e36358e2c6ac ∷ 0x1474b333b000d170
    ∷ 0x24d792756fc96640 ∷ 0x618fda9fef868c5e ∷ 0xb7ff5b125afd9375 ∷ 0x778dd97e0440c258
    ∷ 0xfbff314886219627 ∷ 0x3417e1e1e2a7e811 ∷ 0x21e959a88f7b7bdc ∷ 0x3508c2eb8c3c8672
    ∷ 0x827ecdde111c430f ∷ 0x21bcb19fb07aa134 ∷ 0xe0c1fa50ab2f5746 ∷ 0x401e680b4e6658fa
    ∷ 0x2cc24bab313693cc ∷ 0x20541c12b964447a ∷ 0x374975b6fb81c3cc ∷ 0x52905efb344e17f7
    ∷ 0x79c5c9b56d8b5f9e ∷ 0x3390bf75d2b9a3ec ∷ 0x7ef3807d895bf4e4 ∷ 0x2814165a42046b51
    ∷ 0x7f8cfd09326fe158 ∷ 0x3232fb4f4c9762ec ∷ 0x5678d6dacc194d25 ∷ 0x6f7caffb0a7545e8
    ∷ 0xbd981637b23e7963 ∷ 0x691d7b7cb88a0ef5 ∷ 0x10ba319ae2062914 ∷ 0x06fb144f8295a85b
    ∷ 0x80e620976bf62f8f ∷ 0x2a425971ec73d6b4 ∷ 0x800aa9e741d10b1c ∷ 0x230d7d8bd1a0469b
    ∷ 0x65aace37428dfe8c ∷ 0x0fcab5297f58b667 ∷ 0xcf0e9526943af7b8 ∷ 0x7d90915b75d4dae7
    ∷ 0x7455a46156259d6b ∷ 0x29bcc06374cce1b5 ∷ 0xf2fb0ed3aa87aefd ∷ 0x211a06af0e54dd58
    ∷ 0x6c0c95c5723de9bc ∷ 0x6299b6ed25008ca7 ∷ 0x7fd63e784d4dfb18 ∷ 0x2cc93b4d9bc1db30
    ∷ 0xebc7e2d44c5d13ea ∷ 0x3278e18d4d3d11a0 ∷ 0x349e3dd25a215f79 ∷ 0x7eb2a7150b30416d
    ∷ 0x05f3d7d5f6a094cb ∷ 0x2a3771d48e331405 ∷ 0x08ef39e9dc96f009 ∷ 0x012248373a364992
    ∷ 0xf758f92fc9fd4d33 ∷ 0x2339d8c6dfd3ca6c ∷ 0x8b000965962673b4 ∷ 0x746ff43eb99d9054
    ∷ 0x47ecdc054a422eff ∷ 0x33d8f7c8267b7f0c ∷ 0x22fe00ac921a42ae ∷ 0x31e57f3d31fcd8e6
    ∷ 0xbb912315a1c50869 ∷ 0x4ac8cdb0fa7ebbaf ∷ 0x0541d74a60973edf ∷ 0x7234900334b2c5d7
    ∷ 0xf2e545f730adfa33 ∷ 0x224e44e63db5ac96 ∷ 0xfcba3d005c6fdeb9 ∷ 0x2c93a4e6559936b5
    ∷ 0x7727a0d7ad88d758 ∷ 0x2e33100216719cdd ∷ 0x7b2ef89aeb2c0254 ∷ 0x1f6de5b74758afb4
    ∷ 0x6ae89047114fb321 ∷ 0x3d605e9a6ec6d80d ∷ 0x18e915c727a874d8 ∷ 0x699088b5e9d0912f
    ∷ 0xaf9344618e056f10 ∷ 0x1b9169df8245e0b3 ∷ 0x5eb8c33d70f4c891 ∷ 0x1609ddfb222b13c3
    ∷ 0x8131c885d1b366ed ∷ 0x7bc3cf9d9cb1a7b0 ∷ 0xd297478d2fc93968 ∷ 0x13cbb4573a4ea7f5
    ∷ 0xdd37b5cc64d5986b ∷ 0x7ed3d1d7d81ab5dc ∷ 0xac53485f23973c9e ∷ 0x0705675d333b91d7
    ∷ 0xade5d213c43186c1 ∷ 0x6a8bdf57b4bfdf14 ∷ 0xa87f88a1de717963 ∷ 0x17f29220b519bce2
    ∷ 0x7af2d7fb0f95c610 ∷ 0x28d1d3923b144a7c ∷ 0x8e73c3d8972813e1 ∷ 0x00100b40c62e72c1
    ∷ 0x84de7a81fa1f50da ∷ 0x4fa391d6589d8244 ∷ 0xbcc3596f0834b285 ∷ 0x4d4acbd60a24e9ce
    ∷ 0x97fa98b8c1835a0d ∷ 0x33abcf8e29901d0b ∷ 0x60a73d1975b3d082 ∷ 0x60666aa4325b948d
    ∷ 0xad54adb769284a39 ∷ 0x227a98d113609b28 ∷ 0x4a1e1ffcae6a3872 ∷ 0x1e4ee44bd67f818c
    ∷ 0x5a74c6bb4387d315 ∷ 0x019428c0b1b18795 ∷ 0x5cc153e270bbb055 ∷ 0x2b3cabdf00dc4a61
    ∷ 0x834110c026924b57 ∷ 0x2d30e985f2d9f217 ∷ 0x47116979333389f5 ∷ 0x53e3fd6a18202417
    ∷ 0xb1393cd79c2e5864 ∷ 0x58d92935e4112e82 ∷ 0x86989a7ec8305b6d ∷ 0x42a8fe4eee28f37a
    ∷ 0x74e212ef01591901 ∷ 0x3277917a0397b1b9 ∷ 0x7bbcbe6e3d687544 ∷ 0x0b8957701d09afb6
    ∷ 0x6cfbc8ee74503668 ∷ 0x48a9925ada9f8348 ∷ 0x57045753ba2d0f4e ∷ 0x7d69ca3866223d66
    ∷ 0xc7054ce22917271f ∷ 0x41bce1e1133b51de ∷ 0x3a3ae42df81ec35e ∷ 0x7eaada0f42d47cc3
    ∷ 0x13b138f1048a57cc ∷ 0x64f98abd7e915a8f ∷ 0x7af195eb16a0c732 ∷ 0x11be81a791d634d2
    ∷ 0x97d8df47430f61b8 ∷ 0x0767c7b381271004 ∷ 0x3e949136fb940aa6 ∷ 0x3bdee340cd956dba
    ∷ 0xb250ec4ff91d2602 ∷ 0x4cde2454d47f59db ∷ 0xaf5e749530d978cb ∷ 0x5a8e2f2119d4d835
    ∷ 0xdf1cb5425a0744df ∷ 0x3d3b08a7bf35d055 ∷ 0xc6335e832de4719c ∷ 0x6eb8d97e09154d42
    ∷ 0x2f6a3f8de3d20dd9 ∷ 0x13f23cfd276233da ∷ 0xb4a6b80dfc0fa41c ∷ 0x58d876403acfd7d7
    ∷ 0x2ad422078b8e139b ∷ 0x73dbee2abbaf494d ∷ 0x09a2758891eca3c8 ∷ 0x6ef9a9f1178b0938
    ∷ 0xfc7e9ecb90c637da ∷ 0x3a04345fc10b1a7c ∷ 0xc024e9cb62f9ff1f ∷ 0x6c4f9c3aa4aa33d8
    ∷ 0x049d6995b95ac1f0 ∷ 0x2243845195763a1b ∷ 0xa1466a31700ac276 ∷ 0x600fb7123a325905
    ∷ 0x9d391a64a0d35a24 ∷ 0x3b093b550641f108 ∷ 0x2275de5bfd2e221f ∷ 0x25f5e7465963db1e
    ∷ 0x3e220107f7e7fb84 ∷ 0x6f06a23bc1b85a8e ∷ 0xb4198d19f6eb0e48 ∷ 0x5dc11761dad45fda
    ∷ 0xba303e492ab52a0d ∷ 0x127c69c73da9f528 ∷ 0xd3a5b70cf6c790be ∷ 0x0d72b0c50819da5c
    ∷ 0x193f90d62ec2cdf7 ∷ 0x67f7d0cfc4f46daf ∷ 0x7aec083d52f380ea ∷ 0x7c0a1dda4a28bf4d
    ∷ 0x46fd20fe6008cba7 ∷ 0x7a588c914115d595 ∷ 0x8fb1d3daecf45f78 ∷ 0x0851dac094e7b036
    ∷ 0xcae0a76e2a32a892 ∷ 0x104f861322dddb2f ∷ 0xb79d81e46e1f9006 ∷ 0x1e4d28d7a2498912
    ∷ 0xaf3175d3974b89bf ∷ 0x613d00f9a69c55c2 ∷ 0x23f6883e8e65226f ∷ 0x072f7ed65c6def05
    ∷ 0x6690e643bb38e243 ∷ 0x1a81c4a7c9189b15 ∷ 0x1056d1669e4749ae ∷ 0x0137f2a7418f190c
    ∷ 0xed3192796e699d16 ∷ 0x3ed76db45c38a37c ∷ 0x78e86d1475a88243 ∷ 0x45985aacc495b16e
    ∷ 0x47d5c8208e8f1030 ∷ 0x6dbe5f68b4d0e782 ∷ 0x08d3d0182cf7f26b ∷ 0x64c375ce172fadbd
    ∷ 0xba0f6db3a20c2875 ∷ 0x57e1d90a53241250 ∷ 0x0315433fddf8e63e ∷ 0x33344750e37dad9b
    ∷ 0x62cc0d28ae69b016 ∷ 0x435fe80f6100d547 ∷ 0x5874aea8669d3df5 ∷ 0x3b96913f8264d4a9
    ∷ 0x738067d6bb1314b0 ∷ 0x48cccf24cc6f4ccf ∷ 0x6f5e2bbd68b777af ∷ 0x34c2c37ba9635d66
    ∷ 0xd731534900fdbe5b ∷ 0x4e4f9d97afe11d43 ∷ 0x81b41214351b73d7 ∷ 0x1d48d100ad11a5ae
    ∷ 0x2a4ee76628e2b151 ∷ 0x34902e901877efb8 ∷ 0xb5a8561a0fd45394 ∷ 0x44317af6d5cd5ac0
    ∷ 0x354c2469e9068bad ∷ 0x0771fe2761cad022 ∷ 0xfda76ee8212d0f2b ∷ 0x76cdeec6d4435495
    ∷ 0x55c98575b3e825fd ∷ 0x2983325ed5d73a1b ∷ 0x563c4c4fb3f466e7 ∷ 0x731b0fa413338bb0
    ∷ 0xdeb519ca57a05240 ∷ 0x7a7e909b5c4f7351 ∷ 0xefb7c153dd2ab28e ∷ 0x11ca1c865dee30b3
    ∷ 0x013ca8348d9d7de1 ∷ 0x575e0bdaeee8cf9a ∷ 0x464c98a21083af7f ∷ 0x683ddcd85c212ee3
    ∷ 0x1171f0ab4cd02019 ∷ 0x22c7e01c7f4d64c8 ∷ 0x972ec0ef3f2e2ed3 ∷ 0x623f83c2611a476c
    ∷ 0x99b3f16be9aa25a1 ∷ 0x2d3ebc5468990e0b ∷ 0x5d5fba8546a4d5f2 ∷ 0x4716e6919d2986e3
    ∷ 0x3ab2f2bc183f5d6c ∷ 0x5f6257d3910cd4be ∷ 0x341c6f2a78f94f2b ∷ 0x6ee8390b8a5064f5
    ∷ 0x9d8640b9b83ca8e7 ∷ 0x033c5ad24466be3d ∷ 0x6f6cd68db30dfd59 ∷ 0x52aa6b1c0f90f3f6
    ∷ 0xfe7bcd4c97403646 ∷ 0x11ab3fc960b05fb0 ∷ 0x24584b77575896da ∷ 0x427f8deb932da137
    ∷ 0x928a28cb505306f0 ∷ 0x04ae916fe863820e ∷ 0xaabaa98911b9cd3f ∷ 0x59e588ba994d9145
    ∷ 0x9b8f1afabeee9e9f ∷ 0x04ffc7ef3476ff8e ∷ 0xe9cf53ce9937b146 ∷ 0x73fe42a801524448
    ∷ 0x224bda3cf3bbaaad ∷ 0x5fa85056d59884a4 ∷ 0x8e6eead48345726b ∷ 0x09230936d41736d2
    ∷ 0xe679eb58d1ad6be7 ∷ 0x08bb759b530b1eaf ∷ 0x9688eb527860e24b ∷ 0x13704d2daf9af278
    ∷ 0xd9273ac71b906f14 ∷ 0x57ee05fbbd40deb5 ∷ 0xb7788e19ba9e61eb ∷ 0x7967b6dc1c5d9699
    ∷ 0x36e043fc230127c0 ∷ 0x2a716598bb2d519c ∷ 0xc017b2840d4d1b07 ∷ 0x1d3bfa489f756a3f
    ∷ 0x4ad73abf24318d36 ∷ 0x1915e6f53e12625d ∷ 0xb219a7c941f89084 ∷ 0x2280087a8f4762fc
    ∷ 0x8eb280345fd1b4e7 ∷ 0x55b8d4ee5772fd79 ∷ 0xc9e63a787e2ce2e1 ∷ 0x685741adbda93885
    ∷ 0xffb830ab11a3b491 ∷ 0x7e891121f9356428 ∷ 0xc03aea271a629078 ∷ 0x71c45932930a2639
    ∷ 0xe7df192a6bf81795 ∷ 0x704aee8f183aadf1 ∷ 0x06ddb55a8a7a63d7 ∷ 0x52556d8763f3033c
    ∷ 0xb76b458c6f0c33a7 ∷ 0x28666b87c362b95a ∷ 0x365ae575a4c27b9b ∷ 0x36ef35110562adfd
    ∷ 0x89955dd8d927f9c7 ∷ 0x526e787d6a586c9e ∷ 0x762e0bc4eff988c1 ∷ 0x6c9523b4b5ae4946
    ∷ 0xe90a909688cfe95f ∷ 0x658a7dc8b3ffada3 ∷ 0xbee148ba7a58520f ∷ 0x6819007d8573d1cf
    ∷ 0x75d3b5ec141be9c5 ∷ 0x4bc236ae634f3c27 ∷ 0x1192fa9b8b30e894 ∷ 0x4129d43e1d092cbf
    ∷ 0xfcac068558bbea45 ∷ 0x513e8d87b8116534 ∷ 0x5377a179a155ecd4 ∷ 0x6c93531e5545572f
    ∷ 0x727df81ba09aad91 ∷ 0x07527139dbc96250 ∷ 0x150320b1d8ba172a ∷ 0x2281e85f60a1809b
    ∷ 0x7164b7d524eba6af ∷ 0x50d387163fea4ca8 ∷ 0xe90de17d62aebe78 ∷ 0x6ab369ba28c0410d
    ∷ 0x17d07e315a95d138 ∷ 0x58b496352453fefd ∷ 0xb87a04dbbc101b92 ∷ 0x40a8f0fb757e9b0e
    ∷ 0x2148b48a696e64d1 ∷ 0x4e004a3a350c17d7 ∷ 0x17927e9f386b563e ∷ 0x29da9cd441e3e3c5
    ∷ 0x883d2dc357417213 ∷ 0x2e94653ff7862644 ∷ 0x53a37af548453df1 ∷ 0x04475db3c300b93b
    ∷ 0x2d65fa4d815e7204 ∷ 0x231a2db74c2c3ccd ∷ 0x1fd734c0cf4d97cd ∷ 0x32d255c105f6d122
    ∷ 0xbb74fd9201eb07b0 ∷ 0x12e33f1c81ac6f60 ∷ 0xfb9a6439bea97072 ∷ 0x52e14b7db9cdcbc1
    ∷ 0x637ac1a91ae374cb ∷ 0x1c8622c35adc8224 ∷ 0xeb786c50a64b7d33 ∷ 0x362823a7232a5893
    ∷ 0xf22dafca688d472a ∷ 0x18598f0e0237f7c4 ∷ 0x97b8497bfff4bcf1 ∷ 0x7abf4cb27a9c5b7f
    ∷ 0xea47c44e3b3d95d3 ∷ 0x58728fe3e1827a43 ∷ 0x7fd3681a6df902c8 ∷ 0x6db1dbbdc413de79
    ∷ 0xbc4effed1ac3007f ∷ 0x7f31a54744887cab ∷ 0xe6559b4f8bd2519a ∷ 0x18a78ec5b0c241db
    ∷ 0xf6e10285b15d2030 ∷ 0x5c1323ea219a8ff4 ∷ 0x134b6f20dd116b47 ∷ 0x5d0abddbc8998733
    ∷ 0xa3c993938702e151 ∷ 0x0ab6aeb494f6ad5d ∷ 0x8cf3b4beda1815e6 ∷ 0x546ce323008c2fdc
    ∷ 0xa10eb5a6a78dbe39 ∷ 0x26d2e8a8b8457da4 ∷ 0x026ccbe31517d806 ∷ 0x2a35174b812f562c
    ∷ 0x57d70499dd7a374d ∷ 0x3368f951acd3c5e5 ∷ 0x490b2515f901062c ∷ 0x316109e7c315c377
    ∷ 0x32e20eba569535cf ∷ 0x496a8c39d667d709 ∷ 0x5578096dc44d5e0f ∷ 0x608a162ce73903b0
    ∷ 0x6b2e65852cb37cab ∷ 0x75b09a2e6ed609a9 ∷ 0x7ac84b3082602455 ∷ 0x7690cbb594e84b94
    ∷ 0xfc85dad9511973fb ∷ 0x738a74b08c9006d0 ∷ 0x83233fc939d5883e ∷ 0x7fbfc08b5db3c9f4
    ∷ 0x81a0e493fb5f7749 ∷ 0x2c255ef7e69a77c1 ∷ 0x234f02e609cc656f ∷ 0x5960cf0b961f3cec
    ∷ 0xac72940237b1f17a ∷ 0x434e038a29d446ac ∷ 0xca6a090e00d8b0c6 ∷ 0x1f1aad24001e473e
    ∷ 0x6d64b6dc133399fe ∷ 0x0899ba41e9dd4607 ∷ 0xca590b3f25bbf5df ∷ 0x57217978b0d8ce11
    ∷ 0xd6b4cb13da6de9ac ∷ 0x3c88520cf564f75d ∷ 0x649fbd5075a7757f ∷ 0x3f2593b90fe72161
    ∷ 0xe1bee53e91dcc9a8 ∷ 0x010069dce4c74a92 ∷ 0xef83968978aa855c ∷ 0x6cd8848183b53d73
    ∷ 0x0b3df59610e403eb ∷ 0x713225d446180a7f ∷ 0xcc23112cc59850e2 ∷ 0x105796b670a3730c
    ∷ 0xa147f4ec7a2fa4cf ∷ 0x32da1f072d75b253 ∷ 0x4e7007455e85f560 ∷ 0x76a5376a771fdd60
    ∷ 0x47eb4fabdcc699f7 ∷ 0x4e45db6334c6ed96 ∷ 0x36066f2bab72546f ∷ 0x04f48065593ecdec
    ∷ 0x3fec02793fbb5601 ∷ 0x122f74626b64a526 ∷ 0x21d0f66ff83b4dbd ∷ 0x1370610ede647f1c
    ∷ 0x57b82242b88172c9 ∷ 0x527dcbadfdc65ade ∷ 0x5e9c9a04385c93f5 ∷ 0x64d1cf9e52548a6c
    ∷ 0xba0073337865c994 ∷ 0x633ee14e50bcd615 ∷ 0xf840228ec4251095 ∷ 0x49bb96812a98f08d
    ∷ 0x82f57d0422f96678 ∷ 0x06d7e43bffe7e0e1 ∷ 0x33910cca752ae863 ∷ 0x04d46e7c66087e38
    ∷ 0xf14935c4167017c3 ∷ 0x3f22e2f44d03c9ac ∷ 0xa6196244f2cd6164 ∷ 0x15a2b4ce514fa4db
    ∷ 0x5191a04c4abbd0c4 ∷ 0x0e763360ecc8a19d ∷ 0xfef583c184a673c0 ∷ 0x75c2f30a7c7433e7
    ∷ 0xe947a55547c7c099 ∷ 0x245c7ae44f6e7a83 ∷ 0x67a666f9e6bec2d4 ∷ 0x5de0b922fa645ac8
    ∷ 0xdd9b3e4a5cb72e22 ∷ 0x0139c2c857adba8e ∷ 0xa7feb68e863ac231 ∷ 0x501381ef88ec2da0
    ∷ 0xb2b8c6a470f40b01 ∷ 0x051d65bdb8363062 ∷ 0x4ce90414a6d65714 ∷ 0x1e510b525d19df0c
    ∷ 0x569e723f5d374cf6 ∷ 0x4bfe02fd38fde1f0 ∷ 0xae7459ebc50f9aa2 ∷ 0x0f7e2cb170dfde32
    ∷ 0x3c3da2326a7407cb ∷ 0x0cfc50a85ffd1842 ∷ 0x62ab34c85e85c3c8 ∷ 0x22b4d9644bb37333
    ∷ 0x57d313b3d87c2d98 ∷ 0x4f432c1cba49133f ∷ 0x6163d11fa4befc0c ∷ 0x1ab94e122fddf12e
    ∷ 0xfb7c9358aefc85a8 ∷ 0x5b20068f81d949b1 ∷ 0xcf8ed6ff2145c810 ∷ 0x5794afc021932d00
    ∷ 0x5c8987ad9b6e35d5 ∷ 0x6bb1f4b836fda03e ∷ 0x794f1fed4a3ea1d7 ∷ 0x0cf6d128deb0e7bf
    ∷ 0x54ec3e1c65878cf5 ∷ 0x002811763ba2200e ∷ 0x382d917051e77b71 ∷ 0x49e00cbd013a9e7f
    ∷ 0xccf576e9a4cf019c ∷ 0x4b4a66287970333a ∷ 0xf772168915edfc1f ∷ 0x278eb5eca6479685
    ∷ 0x8a95c8b9cf41cf06 ∷ 0x6e58c9c7826d39db ∷ 0x478e119889f2fe75 ∷ 0x73ecd21991bd98d4
    ∷ 0x26e751fe9fbb9502 ∷ 0x29825b71b0632e95 ∷ 0x21668f96ef8bb5c5 ∷ 0x2f2a899e53c9a004
    ∷ 0x2803292ed4345ce8 ∷ 0x72731055c7c65dec ∷ 0x3aaaca9c4b6fe9a5 ∷ 0x6228d3ceda8bd671
    ∷ 0x773e2c5effc48eaf ∷ 0x017ab19e0fea9ac9 ∷ 0x9609e10496c8d766 ∷ 0x121e89f9b302c30f
    ∷ 0x4e87d00a0be96480 ∷ 0x09bd8d170ba9dbab ∷ 0xc6756f947ecd4e52 ∷ 0x2c9e40bbbccd0f5b
    ∷ 0x42a5b77669fd812e ∷ 0x66aba9583b080d9e ∷ 0xee55df99d16e77c1 ∷ 0x4cc00c5c5eff2509
    ∷ 0x8c84d5e20ab7c16b ∷ 0x00ae5c96184ffefb ∷ 0xb295e90346dcef54 ∷ 0x5d1bda0a39dc3b72
    ∷ 0x75f92d72a89b5ef2 ∷ 0x259d998c9ff9ac0e ∷ 0x8a1cfb72a6c433c1 ∷ 0x23f5b71d49d67604
    ∷ 0x478d8f30914f62ef ∷ 0x08fe61135218eca9 ∷ 0x4da2ce9bc6488c4a ∷ 0x15f1eafd35283e2e
    ∷ 0xc2d2be3ebc42ea0f ∷ 0x2a5216539d6ee902 ∷ 0xa1e99052e7bdeeb2 ∷ 0x3a8f2631ec78290c
    ∷ 0xb71518a82ebfbfe4 ∷ 0x24700671c46ebddc ∷ 0x6ef52d591a221f75 ∷ 0x4794614db6a67d92
    ∷ 0x761f5c8ee4bab607 ∷ 0x31d9dd8f2361b5d5 ∷ 0x1a45593be8db3b29 ∷ 0x7f06c365eb116260
    ∷ 0x9d305a66e52eb65b ∷ 0x5edcfcb5613eac18 ∷ 0xef34fd28154adb75 ∷ 0x790f805753b9d742
    ∷ 0x6ecd5ac255dfb797 ∷ 0x0cbe14db5d9a88db ∷ 0xc1c86c5efa815528 ∷ 0x2c636133ba59d887
    ∷ 0xc75d42c2d9f52297 ∷ 0x4bd3540c21e2ebd3 ∷ 0x32e7cdf790de6903 ∷ 0x1aae3c9837d3e30a
    ∷ 0xeed028e49d436f09 ∷ 0x779ae12351efed1c ∷ 0x6e0145587d9797a5 ∷ 0x25156e4cee9a407b
    ∷ 0xac2fd82f2ac57119 ∷ 0x7f8c026f1d182ed2 ∷ 0xeacc0d8fb3241611 ∷ 0x5968db65d2d7545a
    ∷ 0x7d525846b1121dbe ∷ 0x57949fd7b80339cf ∷ 0x471fe9bec9b66c01 ∷ 0x5c270057f1268efa
    ∷ 0xce092463083f656e ∷ 0x16e8241cdc862cf9 ∷ 0xb7cb2bbcaa06b312 ∷ 0x3c25936bd8863416
    ∷ 0x19b8ca966c4a3827 ∷ 0x1ae43badfd21e63e ∷ 0x1dfd002b95a6ac6a ∷ 0x4708e27f6d98e997
    ∷ 0xb5fd6322dc31ac7d ∷ 0x53baf4d9a16dd550 ∷ 0x025aa2ea5463960c ∷ 0x5b5b33c7a3cfa54f
    ∷ 0xdba287866ee96b90 ∷ 0x4748c1f3f3a6dc4f ∷ 0x2333ec05a80c154b ∷ 0x4a47745d5b99fb96 ∷ []
